-- ===== src/Moderation/Suspension.antt =====
-- A suspension of backend/app/api/v1/moderation.py takes effect at once.
use runnerup_chat.Base.{
  ◌≡◌, ◌≢◌, sym, ap, ◌∙◌, inl, inr, Bool, true, false, not, ◌||◌, [], ◌∷◌, ◌++◌, Option, none, some,
  arith, ◌==◌, leb, Bool-cases, Option-cases, is_some, select_one, select_one-All, update_rows, All,
  All-update_new,
}
use runnerup_chat.Errors.{Result, ok, err}
use runnerup_chat.Config.{Settings}
use runnerup_chat.Security.{Platform}
use runnerup_chat.Models.Accounts.{Uuid, Time, Text, Address, User, UserSession, RevokeReason}
use runnerup_chat.Models.Safety.{AuditAction}
use runnerup_chat.World.{World, Db, commit, record_audit, ◌>>◌}
use runnerup_chat.Authz.{Permission, system_grants, require_system_permission}
use runnerup_chat.Sessions.{IssuedTokens, revoke, is_unrevoked_of, rotate_session}
use runnerup_chat.Sessions.Revocation.{revoke_all-tables}
use runnerup_chat.Sessions.Rotation.{rotate_session-Rotated, refused, reused, exchanged}
use runnerup_chat.Deps.{Principal, is_barred, current_principal}
use runnerup_chat.Deps.Tokens.{known, unknown, barred, current_principal-Authenticated}
use runnerup_chat.Moderation.Staff.{suspend, suspend_user, system_rank}

-- In these tables the user is suspended and has no session that is not revoked.
pub record LockedOut (t : Uuid) (db : Db) : Type 0 where
  pub suspended : All (λ (u : User). not (u.id == t) || is_barred u.account_state ≡ true) db.users
  pub signed_out :
      All (λ (s : UserSession). not (s.user_id == t) || is_some s.revoked_at ≡ true) db.sessions

module _ (cfg : Settings) (os : Platform) where
  -- The suspension that was answered leaves the user locked out, in what is committed.
  pub suspend_user-LockedOut :
      (p : Principal) (user_id : Text) (t : Uuid) (w : World)
      → os.parse_uuid user_id ≡ some t
      → (suspend_user cfg os p user_id w).0 ≡ ok tt
      → LockedOut t (suspend_user cfg os p user_id w).1.db
        × ((suspend_user cfg os p user_id w).1.saved ≡ (suspend_user cfg os p user_id w).1.db)
  unfolding suspend_user commit record_audit require_system_permission
  suspend_user-LockedOut p user_id t w parsed done =
      elim (Bool-cases (system_grants p.user.system_role Permission.manage_users)) [
        | inr may_not ↦ absurd (cc (rw may_not at done))
        | inl may ↦ elim (Option-cases (select_one (λ (u : User). u.id == t) w.db.users)) [
          | inl nobody ↦ absurd (cc (rw (may, parsed, nobody) at done))
          | inr (u, found) ↦
              elim (Bool-cases (leb (system_rank p.user.system_role) (system_rank u.system_role))) [
                | inl peer ↦ absurd (cc (rw (may, parsed, found, peer) at done))
                | inr below ↦
                    let logged : Db = record w.db {
                      users = update_rows (λ (u : User). u.id == t) suspend w.db.users;
                      audit_logs =
                          w.db.audit_logs
                          ++ record {
                            action = AuditAction.user_suspended;
                            actor_id = some p.user.id;
                            actor_role = some p.user.system_role;
                            target_id = some t;
                          }
                            ∷ [];
                    } in
                    let (v, e, rows, saved, clock) =
                      revoke_all-tables cfg t RevokeReason.account_suspended none
                        (record w { db = logged; saved = logged }) in
                    rw (may, parsed, found, below, e, ◌>>◌)
                      (
                        record {
                          suspended = rw rows (
                              All-update_new _ (λ (u : User). u.id == t) suspend w.db.users
                                (λ x h. ground arith) (λ x h. ground arith));
                          signed_out = rw rows (
                              All-update_new _ (is_unrevoked_of t none)
                                (revoke w.now RevokeReason.account_suspended) w.db.sessions
                                (λ x h. ground arith) (λ x h. ground arith));
                        },
                        saved,
                      )
              ]
        ]
      ]

-- The user that a request was recognised as.
abbrev pub recognised : Result Principal → Option Uuid
recognised (ok p) = some p.user.id
recognised (err e) = none

-- Was a refresh token exchanged?
abbrev pub is_exchanged : Result IssuedTokens → Bool
is_exchanged (ok t) = true
is_exchanged (err e) = false

module _ (cfg : Settings) (os : Platform) (t : Uuid) where
  LockedOut-principal :
      (header : Option Text) (w : World)
      → LockedOut t w.db
      → recognised (current_principal os header w).0 ≢ some t
  LockedOut-principal header w l h = elim (current_principal-Authenticated os header w) [
    | unknown e ↦ absurd (cc (ap (λ x. recognised x.0) e, h))
    | barred e ↦ absurd (cc (ap (λ x. recognised x.0) e, h))
    | known p k e ↦
        let mine : some p.user.id ≡ some t = sym (ap (λ x. recognised x.0) e) ∙ h in
        let locked = select_one-All _ _ w.db.users l.suspended k.found in
        absurd (ground (arith, mine, locked, k.not_barred))
  ]

  LockedOut-rotate :
      (presented : Text) (ip : Option Address) (new_id : Uuid) (new_refresh : Text) (w : World)
      (s : UserSession)
      → LockedOut t w.db
      → select_one (λ (r : UserSession). r.refresh_hash == os.sha256 presented) w.db.sessions
        ≡ some s
      → s.user_id ≡ t
      → is_exchanged (rotate_session os cfg presented ip new_id new_refresh w).0 ≡ false
  LockedOut-rotate presented ip new_id new_refresh w s l found mine =
      elim (rotate_session-Rotated os cfg presented ip new_id new_refresh w) [
        | refused r e ↦ ap (λ x. is_exchanged x.0) e
        | reused s' w' found' spent v e saved rows clock cached ↦ ap is_exchanged e
        | exchanged s' tokens found' fresh live timely e saved rows clock cached ↦
            let same : s' ≡ s = ground (arith, found, found') in
            let gone = select_one-All _ _ w.db.sessions l.signed_out found in
            absurd (ground (arith, rw same at live, gone, mine))
      ]

  -- A suspension takes effect at once. In the state that an answered suspension of the user `t` has left, at
  -- whatever later time, no header makes a request `t`'s, and the refresh token of no session of `t`
  -- is exchanged.
  pub suspension_locks_out :
      (p : Principal) (user_id : Text) (w : World) (later : Time) (header : Option Text)
      (presented : Text) (ip : Option Address) (new_id : Uuid) (new_refresh : Text)
      (s : UserSession)
      → os.parse_uuid user_id ≡ some t
      → (suspend_user cfg os p user_id w).0 ≡ ok tt
      → select_one
          (λ (r : UserSession). r.refresh_hash == os.sha256 presented)
          (suspend_user cfg os p user_id w).1.saved.sessions
        ≡ some s
      → s.user_id ≡ t
      → (recognised
            (current_principal os header
              (record ((suspend_user cfg os p user_id w).1) { now = later })).0
          ≢ some t)
        × (is_exchanged
              (rotate_session os cfg presented ip new_id new_refresh
                (record ((suspend_user cfg os p user_id w).1) { now = later })).0
            ≡ false)
  suspension_locks_out p user_id w later header presented ip new_id new_refresh s parsed done found
        mine =
      let (l, saved) = suspend_user-LockedOut cfg os p user_id t w parsed done in
      (
        LockedOut-principal header (record ((suspend_user cfg os p user_id w).1) { now = later }) l,
        LockedOut-rotate presented ip new_id new_refresh
            (record ((suspend_user cfg os p user_id w).1) { now = later }) s l (rw saved at found)
            mine,
      )
