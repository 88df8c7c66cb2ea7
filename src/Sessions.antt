-- ===== src/Sessions.antt =====
-- backend/app/services/sessions.py. Uuids and refresh tokens are drawn anew by each call and given
-- as arguments.
pub mod Cache
pub mod Family
pub mod Rotation
pub mod Revocation
mod Tests
use runnerup_chat.Base.{
  ℕ, ◌+◌, ◌==◌, leb, ltb, Bool, true, false, not, ◌&&◌, ◌||◌, Option, none, some, List, [], ◌∷◌,
  ◌++◌, if◌then◌else◌, map, length, is_none, is_some, select_one, select_all, update_rows,
  delete_rows,
}
use runnerup_chat.Errors.{ok, integrity_error, refresh_rejected, RefreshReason}
use runnerup_chat.Texts.{same_text, codes}
use runnerup_chat.Config.{Settings, seconds}
use runnerup_chat.Security.{Platform, mint_access_token}
use runnerup_chat.Models.Accounts.{
  Uuid, Time, Text, Address, User, UserDevice, UserSession, RevokeReason, is_usable,
}
use runnerup_chat.Models.Safety.{AuditAction, SecurityKind, Severity}
use runnerup_chat.World.{
  ◌>>=◌, ◌>>◌, World, Exec, RevokedKey, Channel, Event, pure, raise, gets, raise_if, or_raise,
  execute, commit, publish, record_security, record_audit,
}

pub record IssuedTokens : Type 0 where
  pub access_token : Text
  pub refresh_token : Text
  pub session_id : Uuid
  pub device_id : Uuid
  pub expires_in : ℕ
  pub user_id : Uuid
  pub display_name : Text

-- SETEX: the key is written anew.
unfoldable pub mark_revoked_in_cache : Settings → Uuid → Exec (Unit {0})
mark_revoked_in_cache cfg sid w = (
  ok tt,
  record w {
    revoked =
        record {
          session_id = sid;
          expires_at = w.now + seconds (cfg.access_token_ttl_seconds + 60);
        }
        ∷ delete_rows (λ (k : RevokedKey). k.session_id == sid) w.revoked;
  },
)

unfoldable pub is_session_revoked : Uuid → World → Bool
is_session_revoked sid w =
    is_some
      (select_one (λ (k : RevokedKey). k.session_id == sid && ltb w.now k.expires_at) w.revoked)

-- `for session_id in ...: await mark_revoked_in_cache(session_id)`
unfoldable pub mark_all : Settings → List Uuid → Exec (Unit {0})
mark_all cfg [] = pure tt
mark_all cfg (sid ∷ sids) = do mark_revoked_in_cache cfg sid; mark_all cfg sids

-- `_announce_revocation`
unfoldable pub announce_revocation : Uuid → List Uuid → RevokeReason → Exec (Unit {0})
announce_revocation uid sids reason =
    publish (Channel.user uid) (Event.session_revoked uid sids reason) none

abbrev pub ids : List UserSession → List Uuid
ids = map (λ s. s.id)

abbrev pub revoke : Time → RevokeReason → UserSession → UserSession
revoke now reason s = record s { revoked_at = some now; revoked_reason = some reason }

abbrev pub is_unrevoked_in : Uuid → UserSession → Bool
is_unrevoked_in family s = s.family_id == family && is_none s.revoked_at

-- `if revoked: await _announce_revocation(...)`
unfoldable pub announce_rows : List UserSession → RevokeReason → Exec (Unit {0})
announce_rows [] reason = pure tt
announce_rows (s ∷ ss) reason = announce_revocation s.user_id (ids (s ∷ ss)) reason

unfoldable pub revoke_family : Settings → Uuid → RevokeReason → Exec (Unit {0})
revoke_family cfg family reason = do
  now ← gets (λ w. w.now)
  revoked ← gets (λ w. select_all (is_unrevoked_in family) w.db.sessions)
  execute (λ d. record d {
    sessions = update_rows (is_unrevoked_in family) (revoke now reason) d.sessions;
  })
  mark_all cfg (ids revoked)
  announce_rows revoked reason

unfoldable pub revoke_session : Settings → Uuid → Uuid → RevokeReason → Exec Bool
revoke_session cfg session_id user_id reason = do
  found ← gets (λ w.
      select_one (λ (s : UserSession). s.id == session_id && s.user_id == user_id) w.db.sessions)
  elim found [
    | none ↦ pure false
    | some s ↦ (do revoke_family cfg s.family_id reason; commit; pure true)
  ]

-- The rows of `revoke_all_for_user`: those of the user, but for the one to keep.
abbrev pub is_other : Option Uuid → UserSession → Bool
is_other none s = true
is_other (some keep) s = not (s.id == keep)

abbrev pub is_unrevoked_of : Uuid → Option Uuid → UserSession → Bool
is_unrevoked_of uid except s = s.user_id == uid && is_none s.revoked_at && is_other except s

-- `if rows: await _announce_revocation(...)`
unfoldable pub announce_user : Uuid → List Uuid → RevokeReason → Exec (Unit {0})
announce_user uid [] reason = pure tt
announce_user uid (s ∷ ss) reason = announce_revocation uid (s ∷ ss) reason

unfoldable pub revoke_all_for_user : Settings → Uuid → RevokeReason → Option Uuid → Exec ℕ
revoke_all_for_user cfg uid reason except = do
  now ← gets (λ w. w.now)
  rows ← gets (λ w. select_all (is_unrevoked_of uid except) w.db.sessions)
  execute (λ d. record d {
    sessions = update_rows (is_unrevoked_of uid except) (revoke now reason) d.sessions;
  })
  mark_all cfg (ids rows)
  commit
  announce_user uid (ids rows) reason
  pure (length rows)

abbrev pub is_own_device : Uuid → Uuid → UserDevice → Bool
is_own_device uid did d = d.id == did && d.user_id == uid && is_none d.revoked_at

abbrev pub is_session : Uuid → UserSession → Bool
is_session sid s = s.id == sid

-- The check of the column `platform` of `user_devices`.
unfoldable pub is_platform : Text → Bool
is_platform t =
    same_text t (codes "WEB")
    || same_text t (codes "IOS")
    || same_text t (codes "ANDROID")
    || same_text t (codes "DESKTOP")
    || same_text t (codes "UNKNOWN")

module _ (os : Platform) (cfg : Settings) where
  -- The device of the new session: the one that was named, if it is this user's and not revoked,
  -- and else a new row, which the database takes for a known platform only.
  unfoldable pub bind_device :
      User → Text → Text → Option Address → Option Uuid → (new_device : Uuid) → Exec Uuid
  bind_device u platform device_label ip existing new_device = do
    found ← gets (λ w. elim existing [
      | none ↦ none
      | some did ↦ select_one (is_own_device u.id did) w.db.devices
    ])
    now ← gets (λ w. w.now)
    elim found [
      | some d ↦ pure d.id
      | none ↦ (do
        raise_if (not (is_platform platform)) integrity_error
        execute (λ d. record d {
          devices =
              d.devices
              ++ record {
                id = new_device;
                user_id = u.id;
                platform = platform;
                display_label = device_label;
                ip_first_seen = ip;
                ip_last_seen = ip;
                created_at = now;
                last_active_at = now;
                revoked_at = none;
              }
                ∷ [];
        })
        pure new_device)
    ]

  unfoldable pub new_session : Uuid → Uuid → Uuid → Uuid → Text → Time → UserSession
  new_session session_id uid did family refresh now = record {
    id = session_id;
    user_id = uid;
    device_id = did;
    family_id = family;
    refresh_hash = os.sha256 refresh;
    previous_id = none;
    rotated_at = none;
    revoked_at = none;
    revoked_reason = none;
    expires_at = now + seconds cfg.refresh_token_ttl_seconds;
    last_used_at = none;
  }

  unfoldable pub create_session :
      User
      → (platform device_label : Text) → Option Address
      → Option Uuid
      → (new_device session_id family : Uuid) (refresh : Text) → Exec IssuedTokens
  create_session u platform device_label ip existing new_device session_id family refresh = do
    did ← bind_device u platform device_label ip existing new_device
    now ← gets (λ w. w.now)
    execute (λ d. record d {
      sessions = d.sessions ++ new_session session_id u.id did family refresh now ∷ [];
    })
    record_audit (record {
      action = AuditAction.session_created;
      actor_id = some u.id;
      actor_role = some u.system_role;
      target_id = some session_id;
    })
    commit
    publish (Channel.user u.id) (Event.session_created did) none
    pure (record {
      access_token = mint_access_token os cfg now u.id session_id did u.system_role;
      refresh_token = refresh;
      session_id = session_id;
      device_id = did;
      expires_in = cfg.access_token_ttl_seconds;
      user_id = u.id;
      display_name = u.display_name;
    })

  -- The row that takes over from a rotated one.
  unfoldable pub successor : UserSession → Uuid → Text → UserSession
  successor s new_id new_refresh = record {
    id = new_id;
    user_id = s.user_id;
    device_id = s.device_id;
    family_id = s.family_id;
    refresh_hash = os.sha256 new_refresh;
    previous_id = some s.id;
    rotated_at = none;
    revoked_at = none;
    revoked_reason = none;
    expires_at = s.expires_at;
    last_used_at = none;
  }

  abbrev pub spend : Time → UserSession → UserSession
  spend now s = record s { rotated_at = some now; last_used_at = some now }

  -- The branch of a token that was exchanged before.
  unfoldable pub reuse_detected : UserSession → Exec IssuedTokens
  reuse_detected s = do
    revoke_family cfg s.family_id RevokeReason.refresh_reuse_detected
    record_security (record {
      event = SecurityKind.refresh_reuse_detected;
      severity = Severity.critical;
      user_id = some s.user_id;
      session_id = some s.id;
      device_id = some s.device_id;
    })
    commit
    raise (refresh_rejected RefreshReason.reuse_detected)

  -- The exchange itself.
  unfoldable pub exchange : UserSession → User → Option Address → Uuid → Text → Exec IssuedTokens
  exchange s u ip new_id new_refresh = do
    now ← gets (λ w. w.now)
    execute (λ d. record d {
      sessions =
          update_rows (is_session s.id) (spend now) d.sessions
          ++ successor s new_id new_refresh ∷ [];
    })
    execute (λ d. record d {
      devices =
          update_rows (λ (v : UserDevice). v.id == s.device_id)
            (λ v. record v { last_active_at = now; ip_last_seen = ip }) d.devices;
    })
    commit
    mark_revoked_in_cache cfg s.id
    pure (record {
      access_token = mint_access_token os cfg now u.id new_id s.device_id u.system_role;
      refresh_token = new_refresh;
      session_id = new_id;
      device_id = s.device_id;
      expires_in = cfg.access_token_ttl_seconds;
      user_id = u.id;
      display_name = u.display_name;
    })

  unfoldable pub rotate_session :
      Text → Option Address → (new_id : Uuid) (new_refresh : Text) → Exec IssuedTokens
  rotate_session presented ip new_id new_refresh = do
    let digest = os.sha256 presented
    s ←
        or_raise
          (← gets (λ w. select_one (λ (s : UserSession). s.refresh_hash == digest) w.db.sessions))
          (refresh_rejected RefreshReason.unknown_token)
    now ← gets (λ w. w.now)
    elim (is_some s.rotated_at) [
      | true ↦ reuse_detected s
      | false ↦ (do
        raise_if (is_some s.revoked_at) (refresh_rejected RefreshReason.revoked)
        raise_if (leb s.expires_at now) (refresh_rejected RefreshReason.expired)
        u ←
            or_raise (← gets (λ w. select_one (λ (u : User). u.id == s.user_id) w.db.users))
              (refresh_rejected RefreshReason.account_unavailable)
        raise_if (not (is_usable u)) (refresh_rejected RefreshReason.account_unavailable)
        exchange s u ip new_id new_refresh)
    ]
