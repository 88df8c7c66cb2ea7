-- ===== src/Sessions/Rotation.antt =====
-- Single use of refresh tokens in services/sessions.py: rotation, reuse, and one live session in a
-- family.
use runnerup_chat.Base.{
  ◌<◌, ◌≡◌, refl, ap, inl, inr, true, not, Option, none, some, List, [], ◌∷◌, ◌++◌, arith, ◌==◌,
  leb, Bool-cases, Option-cases, is_some, select_one, update_rows, count_rows, ==_refl,
  select_one-append, select_one-update,
}
use runnerup_chat.Errors.{Result, ok, err, refresh_rejected, RefreshReason}
use runnerup_chat.Config.{Settings}
use runnerup_chat.Security.{Platform}
use runnerup_chat.Models.Accounts.{
  Uuid, Time, Text, Address, User, UserSession, RevokeReason, is_usable,
}
use runnerup_chat.World.{World, commit, record_security, gets, or_raise, raise_if, ◌>>=◌, ◌>>◌}
use runnerup_chat.Sessions.{
  IssuedTokens, is_unrevoked_in, is_session, successor, spend, reuse_detected, exchange,
  rotate_session, mark_revoked_in_cache,
}
use runnerup_chat.Sessions.Family.{Revoked, revoke_family_lem, none_unrevoked}

module _ (os : Platform) (cfg : Settings) where
  -- The rows after an exchange.
  abbrev pub exchanged_rows : World → UserSession → Uuid → Text → List UserSession
  exchanged_rows w s new_id new_refresh =
      update_rows (is_session s.id) (spend os cfg w.now) w.db.sessions
      ++ successor os cfg s new_id new_refresh ∷ []

  -- The ways in which a rotation ends.
  pub data Rotated (presented : Text) (new_id : Uuid) (new_refresh : Text) (w : World)
      (x : Result IssuedTokens × World) : Type 0 where
    -- It is refused, and nothing changes.
    refused :
        (r : RefreshReason)
        → x ≡ (err (refresh_rejected r), w)
        → Rotated presented new_id new_refresh w x
    -- The token was exchanged before: the whole family is revoked, and that is committed.
    reused :
        (s : UserSession) (w' : World)
        → select_one (λ (r : UserSession). r.refresh_hash == os.sha256 presented) w.db.sessions
          ≡ some s
        → is_some s.rotated_at ≡ true
        → Revoked cfg s.family_id RevokeReason.refresh_reuse_detected w w'
        → x.0 ≡ err (refresh_rejected RefreshReason.reuse_detected)
        → x.1.saved ≡ x.1.db
        → x.1.db.sessions ≡ w'.db.sessions
        → x.1.now ≡ w.now
        → x.1.revoked ≡ w'.revoked
        → Rotated presented new_id new_refresh w x
    -- The token is spent, and its successor is added, and that is committed.
    exchanged :
        (s : UserSession) (t : IssuedTokens)
        → select_one (λ (r : UserSession). r.refresh_hash == os.sha256 presented) w.db.sessions
          ≡ some s
        → s.rotated_at ≡ none
        → s.revoked_at ≡ none
        → w.now < s.expires_at
        → x.0 ≡ ok t
        → x.1.saved ≡ x.1.db
        → x.1.db.sessions ≡ exchanged_rows w s new_id new_refresh
        → x.1.now ≡ w.now
        → x.1.revoked ≡ (mark_revoked_in_cache cfg s.id w).1.revoked
        → Rotated presented new_id new_refresh w x

  reused_part :
      (presented : Text) (new_id : Uuid) (new_refresh : Text) (w : World) (s : UserSession)
      → select_one (λ (r : UserSession). r.refresh_hash == os.sha256 presented) w.db.sessions
        ≡ some s
      → is_some s.rotated_at ≡ true
      → Rotated presented new_id new_refresh w (reuse_detected os cfg s w)
  unfolding reuse_detected commit record_security
  reused_part presented new_id new_refresh w s found spent =
      let (w', e, v) = revoke_family_lem cfg s.family_id RevokeReason.refresh_reuse_detected w in
      rw (e, ◌>>=◌) (reused s w' found spent v refl refl refl v.clock refl)

  exchange_part :
      (presented : Text) (ip : Option Address) (new_id : Uuid) (new_refresh : Text) (w : World)
      (s : UserSession) (u : User)
      → select_one (λ (r : UserSession). r.refresh_hash == os.sha256 presented) w.db.sessions
        ≡ some s
      → s.rotated_at ≡ none
      → s.revoked_at ≡ none
      → w.now < s.expires_at
      → Rotated presented new_id new_refresh w (exchange os cfg s u ip new_id new_refresh w)
  unfolding exchange commit mark_revoked_in_cache
  exchange_part presented ip new_id new_refresh w s u found fresh live timely =
      exchanged s _ found fresh live timely refl refl refl refl refl

  user_part :
      (presented : Text) (ip : Option Address) (new_id : Uuid) (new_refresh : Text) (w : World)
      (s : UserSession)
      → select_one (λ (r : UserSession). r.refresh_hash == os.sha256 presented) w.db.sessions
        ≡ some s
      → s.rotated_at ≡ none
      → s.revoked_at ≡ none
      → w.now < s.expires_at
      → Rotated presented new_id new_refresh w (
          (do
            u ←
                or_raise
                  (← gets (λ w. select_one (λ (u : User). u.id == s.user_id) w.db.users))
                  (refresh_rejected RefreshReason.account_unavailable)
            raise_if (not (is_usable u)) (refresh_rejected RefreshReason.account_unavailable)
            exchange os cfg s u ip new_id new_refresh)
            w)
  user_part presented ip new_id new_refresh w s found fresh live timely =
      elim (Option-cases (select_one (λ (u : User). u.id == s.user_id) w.db.users)) [
        | inl nobody ↦ rw nobody (refused RefreshReason.account_unavailable refl)
        | inr (u, e) ↦ elim (Bool-cases (is_usable u)) [
          | inl good ↦
              rw (e, good)
                (exchange_part presented ip new_id new_refresh w s u found fresh live timely)
          | inr bad ↦ rw (e, bad) (refused RefreshReason.account_unavailable refl)
        ]
      ]

  -- Every rotation is refused without effect, or burns the family of a token that was exchanged before,
  -- or spends the token and adds its successor.
  pub rotate_session-Rotated :
      (presented : Text) (ip : Option Address) (new_id : Uuid) (new_refresh : Text) (w : World)
      → Rotated presented new_id new_refresh w
          (rotate_session os cfg presented ip new_id new_refresh w)
  unfolding rotate_session exchange successor
  rotate_session-Rotated presented ip new_id new_refresh w =
      elim (Option-cases
        (select_one (λ (r : UserSession). r.refresh_hash == os.sha256 presented) w.db.sessions)) [
          | inl nothing ↦ rw (nothing, rotate_session) (refused RefreshReason.unknown_token refl)
          | inr (s, found) ↦ elim (Option-cases s.rotated_at) [
            | inr (t, spent) ↦
                rw (found, rotate_session)
                  (rw spent (reused_part presented new_id new_refresh w s found (rw spent refl)))
            | inl fresh ↦ elim (Option-cases s.revoked_at) [
              | inr (t, gone) ↦
                  rw (found, rotate_session) (rw (fresh, gone) (refused RefreshReason.revoked refl))
              | inl live ↦ elim (Bool-cases (leb s.expires_at w.now)) [
                | inl late ↦
                    rw (found, rotate_session)
                      (rw (fresh, live, late) (refused RefreshReason.expired refl))
                | inr timely ↦
                    rw (found, rotate_session)
                      (rw (fresh, live, timely)
                        (user_part presented ip new_id new_refresh w s found fresh live
                          (ground arith)))
              ]
            ]
          ]
        ]

  -- After a rotation that was exchanged, a row with the digest of the presented token is found first
  -- among the rows, and it is marked as rotated.
  found_again :
      (presented : Text) (new_id : Uuid) (new_refresh : Text) (w : World) (s : UserSession)
      → select_one (λ (r : UserSession). r.refresh_hash == os.sha256 presented) w.db.sessions
        ≡ some s
      → select_one
          (λ (r : UserSession). r.refresh_hash == os.sha256 presented)
          (exchanged_rows w s new_id new_refresh)
        ≡ some (spend os cfg w.now s)
  found_again presented new_id new_refresh w s e =
      rw
        (
          select_one-append (λ (r : UserSession). r.refresh_hash == os.sha256 presented)
              (update_rows (is_session s.id) (spend os cfg w.now) w.db.sessions)
              (successor os cfg s new_id new_refresh ∷ []),
          select_one-update (λ (r : UserSession). r.refresh_hash == os.sha256 presented)
              (is_session s.id) (spend os cfg w.now) w.db.sessions (λ x. refl),
          e,
          ==_refl s.id,
        )
        refl

  reuse_lem :
      (presented : Text) (ip : Option Address) (b : Uuid) (y : Text) (w : World) (s : UserSession)
      → select_one (λ (r : UserSession). r.refresh_hash == os.sha256 presented) w.db.sessions
        ≡ some s
      → is_some s.rotated_at ≡ true
      → ((rotate_session os cfg presented ip b y w).0
          ≡ err (refresh_rejected RefreshReason.reuse_detected))
        × (count_rows
              (is_unrevoked_in s.family_id)
              (rotate_session os cfg presented ip b y w).1.saved.sessions
            ≡ 0)
  unfolding rotate_session reuse_detected commit record_security
  reuse_lem presented ip b y w s found spent =
      let (w', e, v) = revoke_family_lem cfg s.family_id RevokeReason.refresh_reuse_detected w in
      rw (found, rotate_session)
        (rw (spent, e, ◌>>=◌)
          (refl, rw v.tables (none_unrevoked w s.family_id RevokeReason.refresh_reuse_detected)))

  -- A refresh token is exchanged at most once. When a rotation has returned tokens, and another
  -- request presents the same token in the state that it left, the second request, at whatever later
  -- time and with whatever fresh ids, fails with the reason reuse_detected; it ends committed, and no
  -- session of the family of that token is left unrevoked.
  pub reuse_burns_family :
      (presented : Text) (ip ip' : Option Address) (a b : Uuid) (x y : Text) (w : World)
      (t : IssuedTokens) (later : Time)
      → (rotate_session os cfg presented ip a x w).0 ≡ ok t
      → (s : UserSession) × (select_one
            (λ (r : UserSession). r.refresh_hash == os.sha256 presented)
            w.db.sessions
          ≡ some s)
        × ((rotate_session os cfg presented ip' b y
              (record ((rotate_session os cfg presented ip a x w).1) { now = later })).0
            ≡ err (refresh_rejected RefreshReason.reuse_detected))
        × (count_rows
              (is_unrevoked_in s.family_id)
              (rotate_session os cfg presented ip' b y
                (record ((rotate_session os cfg presented ip a x w).1) {
                  now = later;
                })).1.saved.sessions
            ≡ 0)
  reuse_burns_family presented ip ip' a b x y w t later h =
      elim (rotate_session-Rotated presented ip a x w) [
        | refused r e ↦ absurd (cc (ap (λ p. p.0) e, h))
        | reused s w' found spent v e saved rows clock cached ↦ absurd (cc (e, h))
        | exchanged s t' found fresh live timely e saved rows clock cached ↦
            let (p, q) =
              reuse_lem presented ip' b y
                (record ((rotate_session os cfg presented ip a x w).1) { now = later })
                (spend os cfg w.now s) (rw rows (found_again presented a x w s found)) refl in
            (s, found, p, q)
      ]
