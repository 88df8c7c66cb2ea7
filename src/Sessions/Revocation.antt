-- ===== src/Sessions/Revocation.antt =====
-- Who can revoke which sessions (services/sessions.py), and the one current session of a family.
use runnerup_chat.Base.{
  Option-cases, ◌⊎◌, inl, inr, none, ◌+◌, ◌≤◌, ◌<◌, ◌≡◌, refl, ap, inl, inr, true, false, ◌&&◌,
  Option, none, some, List, [], ◌∷◌, arith, ◌==◌, Bool-cases, select_one, select_all, update_rows,
  count_rows, count_rows-append, count_rows-update_one, count_rows-update_out, count_rows-update-le,
  All, ==_refl, length,
}
use runnerup_chat.Errors.{ok}
use runnerup_chat.Config.{Settings, seconds}
use runnerup_chat.Security.{Platform}
use runnerup_chat.Models.Accounts.{Uuid, Time, Text, Address, UserSession, RevokeReason}
use runnerup_chat.World.{World, commit, publish, ◌>>=◌}
use runnerup_chat.Sessions.{
  is_unrevoked_in, is_unrevoked_of, is_session, successor, spend, rotate_session, mark_all, ids,
  revoke, revoke_session, revoke_all_for_user, announce_revocation, announce_user,
}
use runnerup_chat.Sessions.Cache.{covers, mark_all-frame, mark_all-covers}
use runnerup_chat.Sessions.Family.{is_current, revoke_family_lem, none_unrevoked, current-revoke-le}
use runnerup_chat.Sessions.Rotation.{
  refused, reused, exchanged, rotate_session-Rotated, exchanged_rows,
}

-- No session of the user is left unrevoked but the one that is kept.
pub none_unrevoked_of :
    (uid : Uuid) (except : Option Uuid) (now : Time) (reason : RevokeReason) (ss : List UserSession)
    → count_rows
        (is_unrevoked_of uid except)
        (update_rows (is_unrevoked_of uid except) (revoke now reason) ss)
      ≡ 0
none_unrevoked_of uid except now reason ss =
    count_rows-update_out (is_unrevoked_of uid except) (is_unrevoked_of uid except)
      (revoke now reason) ss (λ s h. ground arith) (λ s h. h)

announce-frame :
    (uid : Uuid) (sids : List Uuid) (reason : RevokeReason) (w : World)
    → announce_user uid sids reason w
      ≡ (ok tt, record w { published = (announce_user uid sids reason w).1.published })
unfolding announce_user announce_revocation publish
announce-frame uid [] reason w = refl
announce-frame uid (s ∷ ss) reason w = refl

announce-published :
    (uid : Uuid) (sids : List Uuid) (reason : RevokeReason) (w v : World)
    → w.published ≡ v.published
    → (announce_user uid sids reason w).1.published ≡ (announce_user uid sids reason v).1.published
unfolding announce_user announce_revocation publish
announce-published uid [] reason w v same = same
announce-published uid (s ∷ ss) reason w v same = rw same refl

module _ (cfg : Settings) where
  -- `revoke_all_for_user` returns how many sessions it has revoked, and it commits. Afterwards no
  -- session of the user, but the one to keep, is unrevoked in the tables, and the access tokens of each
  -- session that it revoked are covered in the cache at every moment t before their longest lifetime and
  -- 60 seconds have passed.
  pub revoke_all_lem :
      (uid : Uuid) (reason : RevokeReason) (except : Option Uuid) (w : World) (t : Time)
      → t < w.now + seconds (cfg.access_token_ttl_seconds + 60)
      → ((revoke_all_for_user cfg uid reason except w).0
          ≡ ok (length (select_all (is_unrevoked_of uid except) w.db.sessions)))
        × (count_rows
              (is_unrevoked_of uid except)
              (revoke_all_for_user cfg uid reason except w).1.saved.sessions
            ≡ 0)
        × All
            (λ sid. covers sid t (revoke_all_for_user cfg uid reason except w).1.revoked ≡ true)
            (ids (select_all (is_unrevoked_of uid except) w.db.sessions))
  unfolding revoke_all_for_user commit
  revoke_all_lem uid reason except w t h =
      let rows = select_all (is_unrevoked_of uid except) w.db.sessions in
      let w1 : World = record w {
        db = record w.db {
          sessions = update_rows (is_unrevoked_of uid except) (revoke w.now reason) w.db.sessions;
        };
      } in
      let w2 = (mark_all cfg (ids rows) w1).1 in
      rw
        (
          mark_all-frame cfg (ids rows) w1,
          announce-frame uid (ids rows) reason
              (record w { db = w1.db; saved = w1.db; revoked = w2.revoked }),
        )
        (
          refl,
          none_unrevoked_of uid except w.now reason w.db.sessions,
          mark_all-covers cfg t (ids rows) w1 h,
        )

  -- What `revoke_all_for_user` publishes: where it revokes a session, one event for all of them.
  pub revoke_all-published :
      (uid : Uuid) (reason : RevokeReason) (except : Option Uuid) (w : World)
      → (revoke_all_for_user cfg uid reason except w).1.published
        ≡ (announce_user uid
            (ids (select_all (is_unrevoked_of uid except) w.db.sessions))
            reason
            w).1.published
  unfolding revoke_all_for_user commit
  revoke_all-published uid reason except w =
      let rows = select_all (is_unrevoked_of uid except) w.db.sessions in
      let w1 : World = record w {
        db = record w.db {
          sessions = update_rows (is_unrevoked_of uid except) (revoke w.now reason) w.db.sessions;
        };
      } in
      let w2 = (mark_all cfg (ids rows) w1).1 in
      let w3 : World = record w { db = w1.db; saved = w1.db; revoked = w2.revoked } in
      rw (mark_all-frame cfg (ids rows) w1, announce-frame uid (ids rows) reason w3)
        (announce-published uid (ids rows) reason w3 w refl)

  -- What `revoke_all_for_user` does to the tables.
  pub revoke_all-tables :
      (uid : Uuid) (reason : RevokeReason) (except : Option Uuid) (w : World)
      → (v : World) × (revoke_all_for_user cfg uid reason except w
          ≡ (ok (length (select_all (is_unrevoked_of uid except) w.db.sessions)), v))
        × (v.db ≡ record w.db {
          sessions = update_rows (is_unrevoked_of uid except) (revoke w.now reason) w.db.sessions;
        })
        × (v.saved ≡ v.db)
        × (v.now ≡ w.now)
  unfolding revoke_all_for_user commit
  revoke_all-tables uid reason except w =
      let rows = select_all (is_unrevoked_of uid except) w.db.sessions in
      let w1 : World = record w {
        db = record w.db {
          sessions = update_rows (is_unrevoked_of uid except) (revoke w.now reason) w.db.sessions;
        };
      } in
      let w2 = (mark_all cfg (ids rows) w1).1 in
      let w3 : World = record w { db = w1.db; saved = w1.db; revoked = w2.revoked } in
      (
        record w3 { published = (announce_user uid (ids rows) reason w3).1.published },
        rw (mark_all-frame cfg (ids rows) w1, announce-frame uid (ids rows) reason w3) refl,
        refl,
        refl,
        refl,
      )

  -- A session that is not the caller's, or does not exist, cannot be revoked: the answer is False, and
  -- nothing changes. The caller's own is revoked with its whole family: the answer is True, and no
  -- session of the family is left unrevoked in the committed tables.
  pub revoke_session_outcome :
      (sid uid : Uuid) (reason : RevokeReason) (w : World)
      → ((s : UserSession) × (select_one
              (λ (s : UserSession). s.id == sid && s.user_id == uid)
              w.db.sessions
            ≡ some s)
          × ((revoke_session cfg sid uid reason w).0 ≡ ok true)
          × (count_rows
                (is_unrevoked_in s.family_id)
                (revoke_session cfg sid uid reason w).1.saved.sessions
              ≡ 0))
        ⊎ ((select_one (λ (s : UserSession). s.id == sid && s.user_id == uid) w.db.sessions ≡ none)
            × (revoke_session cfg sid uid reason w ≡ (ok false, w)))
  unfolding revoke_session commit
  revoke_session_outcome sid uid reason w =
      elim (Option-cases
        (select_one (λ (s : UserSession). s.id == sid && s.user_id == uid) w.db.sessions)) [
          | inl nothing ↦ inr (nothing, rw nothing refl)
          | inr (s, found) ↦
              let (w', e, v) = revoke_family_lem cfg s.family_id reason w in
              inl (
                s,
                found,
                rw (found, e, ◌>>=◌) refl,
                rw (found, e, ◌>>=◌) (rw v.tables (none_unrevoked w s.family_id reason)),
              )
        ]

module _ (os : Platform) (cfg : Settings) where
  current-exchange-le :
      (family : Uuid) (w : World) (s : UserSession) (new_id : Uuid) (new_refresh : Text)
      (presented : Text)
      → select_one (λ (r : UserSession). r.refresh_hash == os.sha256 presented) w.db.sessions
        ≡ some s
      → s.rotated_at ≡ none
      → s.revoked_at ≡ none
      → count_rows (is_current family) (exchanged_rows os cfg w s new_id new_refresh)
        ≤ count_rows (is_current family) w.db.sessions
  unfolding successor count_rows
  current-exchange-le family w s new_id new_refresh presented found fresh live =
      elim (Bool-cases (s.family_id == family)) [
        | inl own ↦ ground (
          arith,
          count_rows-append (is_current family)
              (update_rows (is_session s.id) (spend os cfg w.now) w.db.sessions)
              (successor os cfg s new_id new_refresh ∷ []),
          count_rows-update_one (is_current family) (is_session s.id)
              (λ r. r.refresh_hash == os.sha256 presented) (spend os cfg w.now) w.db.sessions
              (λ x. ground arith) found (==_refl s.id) (rw (own, fresh, live) refl),
        )
        | inr other ↦ ground (
          arith,
          count_rows-append (is_current family)
              (update_rows (is_session s.id) (spend os cfg w.now) w.db.sessions)
              (successor os cfg s new_id new_refresh ∷ []),
          count_rows-update-le (is_current family) (is_session s.id) (spend os cfg w.now)
              w.db.sessions (λ x h. ground arith),
        )
      ]

  -- Rotation keeps at most one session in a family current, that is neither rotated nor revoked:
  -- whatever it is presented, no family has more current sessions after it than before.
  pub rotation_keeps_one_current :
      (family : Uuid) (presented : Text) (ip : Option Address) (new_id : Uuid) (new_refresh : Text)
      (w : World)
      → count_rows
          (is_current family)
          (rotate_session os cfg presented ip new_id new_refresh w).1.db.sessions
        ≤ count_rows (is_current family) w.db.sessions
  rotation_keeps_one_current family presented ip new_id new_refresh w =
      elim (rotate_session-Rotated os cfg presented ip new_id new_refresh w) [
        | refused r e ↦ rw (ap (λ p. p.1.db.sessions) e) (omega arith)
        | reused s w' found spent v e saved rows clock cached ↦
            rw (rows, v.tables)
              (current-revoke-le family (is_unrevoked_in s.family_id) w.now
                RevokeReason.refresh_reuse_detected w.db.sessions)
        | exchanged s t' found fresh live timely e saved rows clock cached ↦
            rw rows (current-exchange-le family w s new_id new_refresh presented found fresh live)
      ]
