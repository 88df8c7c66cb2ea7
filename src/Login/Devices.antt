-- ===== src/Login/Devices.antt =====
-- The removal of a device, `revoke_device` of backend/app/api/v1/auth.py.
use runnerup_chat.Base.{
  ◌≡◌, refl, sym, ap, ◌∙◌, inl, inr, Bool, true, false, not, ◌&&◌, ◌||◌, none, some, List, [], ◌∷◌,
  arith, ◌==◌, ==_refl, is_some, Bool-cases, Option-cases, select_one, select_all, update_rows, All,
  All-map, All-update_new,
}
use mathlib.Core.Path.{subst}
use runnerup_chat.Errors.{Result, ok, err, validation_failed, invalid_device_id}
use runnerup_chat.Config.{Settings}
use runnerup_chat.Security.{Platform}
use runnerup_chat.Models.Accounts.{Uuid, Time, Text, UserDevice, UserSession, RevokeReason}
use runnerup_chat.World.{World, Db, commit, record_audit}
use runnerup_chat.Sessions.{revoke, is_unrevoked_in}
use runnerup_chat.Sessions.Family.{revoke_family_lem}
use runnerup_chat.Deps.{Principal}
use runnerup_chat.Login.Leaving.{
  is_unrevoked_on, revoke_families, with_revoked, drop_device, revoke_device,
}

-- Is the session of one of these sessions' families?
abbrev in_families : List UserSession → UserSession → Bool
in_families [] s = false
in_families (r ∷ rs) s = s.family_id == r.family_id || in_families rs s

-- A row that is unrevoked on the device is in one of the families.
abbrev Reached : Uuid → List UserSession → UserSession → Type 0
Reached did rs s = is_unrevoked_on did s ≡ true → in_families rs s ≡ true

All-reach :
    (did : Uuid) (now : Time) (r : UserSession) (rs ss : List UserSession)
    → All (Reached did (r ∷ rs)) ss
    → All
        (Reached did rs)
        (update_rows (is_unrevoked_in r.family_id) (revoke now RevokeReason.device_revoked) ss)
unfolding update_rows
All-reach did now r rs [] h = tt
All-reach did now r rs (s ∷ ss) h = elim (Bool-cases (is_unrevoked_in r.family_id s)) [
  | inl hit ↦ rw hit ((λ on. absurd (ground (arith, on))), All-reach did now r rs ss h.1)
  | inr miss ↦ rw miss ((λ on. ground (arith, h.0 on, miss, on)), All-reach did now r rs ss h.1)
]

module _ (cfg : Settings) (did : Uuid) where
  -- The loop returns and leaves no row unrevoked that its families reach.
  revoke_families-done :
      (rs : List UserSession) (w : World)
      → All (Reached did rs) w.db.sessions
      → (v : World) × (revoke_families cfg rs w ≡ (ok tt, v))
        × All (λ s. is_unrevoked_on did s ≡ false) v.db.sessions
        × (v.db ≡ record w.db { sessions = v.db.sessions })
  unfolding revoke_families
  revoke_families-done [] w h = (
    w,
    refl,
    All-map (Reached did []) _ w.db.sessions
        (λ s r. elim (Bool-cases (is_unrevoked_on did s)) [
          | inl hit ↦ absurd (cc (r hit))
          | inr miss ↦ miss
        ])
        h,
    refl,
  )
  revoke_families-done (r ∷ rs) w h =
      let (u, e, done) = revoke_family_lem cfg r.family_id RevokeReason.device_revoked w in
      let (v, e', none_left, rest) =
        revoke_families-done rs u (rw done.tables (All-reach did w.now r rs w.db.sessions h)) in
      (
        v,
        rw (e, e') refl,
        none_left,
        rest ∙ ap (λ (d : Db). record d { sessions = v.db.sessions }) done.tables,
      )

Reached-more :
    (did : Uuid) (r : UserSession) (rs : List UserSession) (s : UserSession)
    → Reached did rs s
    → Reached did (r ∷ rs) s
Reached-more did r rs s h on = ground (arith, h on)

taken :
    (did : Uuid) (s : UserSession) (ss : List UserSession)
    → is_unrevoked_on did s ≡ true
    → select_all (is_unrevoked_on did) (s ∷ ss) ≡ s ∷ select_all (is_unrevoked_on did) ss
unfolding select_all
taken did s ss hit = rw hit refl

left_out :
    (did : Uuid) (s : UserSession) (ss : List UserSession)
    → is_unrevoked_on did s ≡ false
    → select_all (is_unrevoked_on did) (s ∷ ss) ≡ select_all (is_unrevoked_on did) ss
unfolding select_all
left_out did s ss miss = rw miss refl

families_cover :
    (did : Uuid) (ss : List UserSession)
    → All (Reached did (select_all (is_unrevoked_on did) ss)) ss
families_cover did [] = tt
families_cover did (s ∷ ss) =
    let sel = select_all (is_unrevoked_on did) ss in
    elim (Bool-cases (is_unrevoked_on did s)) [
      | inl hit ↦
          subst (λ l. All (Reached did l) (s ∷ ss)) (sym (taken did s ss hit))
            (
              (λ h. ground (arith, ==_refl s.family_id)),
              All-map (Reached did sel) (Reached did (s ∷ sel)) ss
                  (λ x h. Reached-more did s sel x h) (families_cover did ss),
            )
      | inr miss ↦
          subst (λ l. All (Reached did l) (s ∷ ss)) (sym (left_out did s ss miss))
            ((λ h. absurd (cc (h, miss))), families_cover did ss)
    ]

-- The ways in which the removal of a device ends.
pub data Removed (os : Platform) (p : Principal) (device_id : Text) (w : World)
    (x : Result (Unit {0}) × World) : Type 0 where
  unread :
      os.parse_uuid device_id ≡ none
      → x ≡ (err (validation_failed invalid_device_id), w)
      → Removed os p device_id w x
  foreign :
      (target : Uuid)
      → os.parse_uuid device_id ≡ some target
      → select_one (λ (d : UserDevice). d.id == target && d.user_id == p.user.id) w.db.devices
        ≡ none
      → x ≡ (ok tt, w)
      → Removed os p device_id w x
  removed :
      (target : Uuid) (d : UserDevice)
      → os.parse_uuid device_id ≡ some target
      → select_one (λ (r : UserDevice). r.id == target && r.user_id == p.user.id) w.db.devices
        ≡ some d
      → All
          (λ (r : UserDevice). not (r.id == d.id) || is_some r.revoked_at ≡ true)
          x.1.saved.devices
      → All (λ s. is_unrevoked_on d.id s ≡ false) x.1.saved.sessions
      → x.0 ≡ ok tt
      → Removed os p device_id w x

module _ (cfg : Settings) (os : Platform) where
  -- A removal ends in one of three ways: the id is none; or it is not that of a device of the caller,
  -- whether or not it is anybody's, and nothing changes; or the device is the caller's own, and then,
  -- in what is committed, it is revoked and every session on it is revoked.
  pub revoke_device-Removed :
      (p : Principal) (device_id : Text) (w : World)
      → Removed os p device_id w (revoke_device cfg os p device_id w)
  unfolding revoke_device drop_device commit record_audit
  revoke_device-Removed p device_id w = elim (Option-cases (os.parse_uuid device_id)) [
    | inl bad ↦ unread bad (rw bad refl)
    | inr (target, read) ↦
        elim (Option-cases (
          select_one (λ (d : UserDevice). d.id == target && d.user_id == p.user.id) w.db.devices)) [
            | inl missing ↦ foreign target read missing (rw (read, missing) refl)
            | inr (d, found) ↦
                let db : Db = record w.db {
                  devices =
                      update_rows (λ (v : UserDevice). v.id == d.id) (with_revoked w.now)
                        w.db.devices;
                } in
                let rs = select_all (is_unrevoked_on d.id) w.db.sessions in
                let (v, e, none_left, rest) =
                  revoke_families-done cfg d.id rs (record w { db = db })
                    (families_cover d.id w.db.sessions) in
                removed target d read found
                  (rw (read, found, e, rest)
                    (All-update_new _ (λ (r : UserDevice). r.id == d.id) (with_revoked w.now)
                      w.db.devices (λ x h. ground arith) (λ x h. ground arith)))
                  (rw (read, found, e) none_left) (rw (read, found, e) refl)
          ]
  ]
