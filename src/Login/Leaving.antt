-- ===== src/Login/Leaving.antt =====
-- backend/app/api/v1/auth.py: signing out, and the device list.
use runnerup_chat.Base.{
  ℕ, Bool, ◌&&◌, Option, none, some, List, [], ◌∷◌, map, ltb, ◌==◌, is_none, select_one, select_all,
  update_rows,
}
use runnerup_chat.Errors.{validation_failed, invalid_device_id}
use runnerup_chat.Config.{Settings}
use runnerup_chat.Security.{Platform}
use runnerup_chat.Models.Accounts.{Uuid, Text, Time, UserDevice, UserSession, RevokeReason}
use runnerup_chat.Models.Safety.{AuditAction}
use runnerup_chat.World.{Exec, pure, gets, or_raise, execute, commit, record_audit, ◌>>=◌, ◌>>◌}
use runnerup_chat.Messages.Read.{sort_by}
use runnerup_chat.Sessions.{revoke_session, revoke_all_for_user, revoke_family}
use runnerup_chat.Deps.{Principal}
use runnerup_chat.Login.{noted}

abbrev pub with_revoked : Time → UserDevice → UserDevice
with_revoked now d = record d { revoked_at = some now }

abbrev pub is_unrevoked_on : Uuid → UserSession → Bool
is_unrevoked_on did s = s.device_id == did && is_none s.revoked_at

module _ (cfg : Settings) where
  unfoldable pub logout : Principal → Exec (Unit {0})
  logout p = do
    revoke_session cfg p.session_id p.user.id RevokeReason.user_logout
    record_audit (noted AuditAction.session_logout p.user.id p.session_id)
    commit

  unfoldable pub logout_all : Principal → Exec ℕ
  logout_all p = do
    count ← revoke_all_for_user cfg p.user.id RevokeReason.user_logout_all none
    record_audit (noted AuditAction.session_logout_all p.user.id p.user.id)
    commit
    pure count

  -- `for session in revoked: await revoke_family(...)`
  unfoldable pub revoke_families : List UserSession → Exec (Unit {0})
  revoke_families [] = pure tt
  revoke_families (s ∷ ss) = do
    revoke_family cfg s.family_id RevokeReason.device_revoked
    revoke_families ss

  -- What follows the search for the device.
  unfoldable pub drop_device : Principal → (target : Uuid) → Option UserDevice → Exec (Unit {0})
  drop_device p target none = pure tt
  drop_device p target (some d) = do
    now ← gets (λ w. w.now)
    execute (λ db. record db {
      devices = update_rows (λ (v : UserDevice). v.id == d.id) (with_revoked now) db.devices;
    })
    revoked ← gets (λ w. select_all (is_unrevoked_on d.id) w.db.sessions)
    revoke_families revoked
    record_audit (noted AuditAction.device_revoked p.user.id target)
    commit

  unfoldable pub revoke_device : Platform → Principal → (device_id : Text) → Exec (Unit {0})
  revoke_device os p device_id = do
    target ← or_raise (os.parse_uuid device_id) (validation_failed invalid_device_id)
    found ← gets (λ w.
        select_one (λ (d : UserDevice). d.id == target && d.user_id == p.user.id) w.db.devices)
    drop_device p target found

pub record DeviceOut : Type 0 where
  pub id : Uuid
  pub platform : Text
  pub label : Text
  pub created_at : Time
  pub last_active_at : Time
  pub is_current : Bool

unfoldable pub list_devices : Principal → Exec (List DeviceOut)
list_devices p = gets (λ w.
    map
      (λ (d : UserDevice). record {
        id = d.id;
        platform = d.platform;
        label = d.display_label;
        created_at = d.created_at;
        last_active_at = d.last_active_at;
        is_current = d.id == p.device_id;
      })
      (sort_by (λ (a b : UserDevice). ltb b.last_active_at a.last_active_at)
        (select_all (λ (d : UserDevice). d.user_id == p.user.id && is_none d.revoked_at)
          w.db.devices)))
