-- ===== src/Login.antt =====
-- backend/app/api/v1/auth.py: signing in and renewing a session. A payload is one that its schema has
-- let through; the address of a request, fresh ids and tokens are arguments; an answer carries the cookies
-- that it sets.
pub mod Leaving
pub mod Outcome
pub mod Devices
mod Tests
use runnerup_chat.Base.{
  ℕ, Bool, true, false, not, ◌||◌, Option, none, some, List, [], ◌∷◌, ◌++◌, map, ◌==◌, is_none,
  select_one, if◌then◌else◌,
}
use runnerup_chat.Errors.{
  Result, ok, err, validation_failed, not_authenticated, refresh_rejected, plain, invalid_phone,
  verification_failed, reauthentication_required,
}
use runnerup_chat.Texts.{codes, ascii_lower, starts_with}
use runnerup_chat.Config.{Settings}
use runnerup_chat.Security.{Platform, normalize_phone, phone_display_parts, phone_fingerprint}
use runnerup_chat.Models.Accounts.{
  Uuid, Digest, Text, Address, User, SystemRole, AccountState, is_usable,
}
use runnerup_chat.Models.Safety.{AuditLog, AuditAction, SecurityKind, Severity}
use runnerup_chat.World.{
  ◌>>=◌, ◌>>◌, Exec, LimitName, Identity, pure, raise, gets, or_raise, raise_if, execute, commit,
  record_audit, record_security,
}
use runnerup_chat.Ratelimit.{enforce}
use runnerup_chat.Otp.{issue_challenge, verify_challenge}
use runnerup_chat.Sessions.{create_session, rotate_session}
use runnerup_chat.Deps.{Request, require_csrf}

-- `needle in text`
abbrev pub contains : (needle text : Text) → Bool
contains needle [] = starts_with needle []
contains needle (c ∷ cs) = starts_with needle (c ∷ cs) || contains needle cs

-- The first of these that the text contains, by the name it is shown with.
unfoldable pub first_in : Text → List (Text × Text) → Option Text
first_in ua [] = none
first_in ua ((needle, shown) ∷ rest) = if contains needle ua then some shown else first_in ua rest

abbrev browsers : List (Text × Text)
browsers =
    (codes "firefox", codes "Firefox")
    ∷ (codes "edg", codes "Edge")
    ∷ (codes "chrome", codes "Chrome")
    ∷ (codes "safari", codes "Safari")
    ∷ []

abbrev systems : List (Text × Text)
systems =
    (codes "windows", codes "Windows")
    ∷ (codes "android", codes "Android")
    ∷ (codes "iphone", codes "iPhone")
    ∷ (codes "ipad", codes "iPad")
    ∷ (codes "mac", codes "macOS")
    ∷ (codes "linux", codes "Linux")
    ∷ []

abbrev label_of : Option Text → Option Text → Text
label_of (some b) (some s) = b ++ codes " on " ++ s
label_of none (some s) = s
label_of b none = codes "Unknown device"

abbrev lowered : Option Text → Text
lowered none = []
lowered (some t) = map ascii_lower t

-- A header has no characters but those of Latin-1; of these `lower` makes no more letters of ASCII.
unfoldable pub device_label : (user_agent : Option Text) → Text
device_label user_agent =
    let ua = lowered user_agent in label_of (first_in ua browsers) (first_in ua systems)

pub record Cookie : Type 0 where
  pub name : Text
  pub value : Text
  pub httponly : Bool
  pub secure : Bool
  pub path : Text
  pub max_age : ℕ

-- Both cookies have samesite="strict".
unfoldable pub set_auth_cookies : Settings → (refresh_token csrf : Text) → List Cookie
set_auth_cookies cfg refresh_token csrf =
    record {
      name = codes "refresh_token";
      value = refresh_token;
      httponly = true;
      secure = cfg.cookie_secure;
      path = codes "/api/v1/auth";
      max_age = cfg.refresh_token_ttl_seconds;
    }
    ∷ record {
      name = codes "csrf_token";
      value = csrf;
      httponly = false;
      secure = cfg.cookie_secure;
      path = codes "/";
      max_age = cfg.refresh_token_ttl_seconds;
    }
    ∷ []

pub record SessionOut : Type 0 where
  pub access_token : Text
  pub expires_in : ℕ
  pub user_id : Uuid
  pub display_name : Text
  pub is_new_account : Bool

-- `User(...)` with the columns' defaults.
abbrev pub new_user : Uuid → Digest → (country last4 : Text) → User
new_user i fingerprint country last4 = record {
  id = i;
  phone_hash = fingerprint;
  phone_last4 = last4;
  phone_country = country;
  username = none;
  display_name = codes "User " ++ last4;
  system_role = SystemRole.user;
  account_state = AccountState.active;
  deleted_at = none;
}

-- What one call draws: the id of a new user and of a new device, the session's and its family's id, the
-- refresh token and the CSRF token.
pub record Drawn : Type 0 where
  pub user_id : Uuid
  pub device_id : Uuid
  pub session_id : Uuid
  pub family_id : Uuid
  pub refresh_token : Text
  pub csrf : Text

abbrev pub noted : AuditAction → Uuid → Uuid → AuditLog
noted action actor target = record {
  action = action;
  actor_id = some actor;
  actor_role = none;
  target_id = some target;
}

-- `except RefreshRejected`
abbrev pub rejected {ℓ} : {A : Type ℓ} → Result A → Result A
rejected (ok a) = ok a
rejected (err (refresh_rejected reason)) = err (not_authenticated reauthentication_required)
rejected (err e) = err e

abbrev pub catch_rejected {ℓ} : {A : Type ℓ} → Exec A → Exec A
catch_rejected m w = let (r, v) = m w in (rejected r, v)

-- `not presented`
abbrev pub presented_token : Option Text → Option Text
presented_token none = none
presented_token (some []) = none
presented_token (some (c ∷ cs)) = some (c ∷ cs)

abbrev pub source : Option Address → Identity
source none = Identity.unknown
source (some a) = Identity.known a

module _ (os : Platform) (cfg : Settings) where
  unfoldable pub request_otp :
      (raw_phone : Text) (region : Option Text)
      → Option Address
      → Option Text
      → (challenge_id drawn : ℕ) → (delivered : Bool) → Exec (Uuid × ℕ)
  request_otp raw_phone region ip user_agent challenge_id drawn delivered = do
    phone ← or_raise (normalize_phone os raw_phone region) (validation_failed invalid_phone)
    challenge ← issue_challenge os cfg phone ip user_agent challenge_id drawn delivered
    pure (challenge.challenge_id, cfg.otp_ttl_seconds)

  -- The account of a number: the one there is, if it is usable, or a new one.
  unfoldable pub enter : Text → Uuid → Option User → Exec User
  enter phone new_id none = do
    let parts = phone_display_parts os phone
    let u = new_user new_id (phone_fingerprint os phone) parts.0 parts.1
    execute (λ d. record d { users = d.users ++ u ∷ [] })
    record_audit (noted AuditAction.user_registered new_id new_id)
    pure u
  enter phone new_id (some u) = if is_usable u then pure u else (do
    record_security (record {
      event = SecurityKind.login_blocked_account_state;
      severity = Severity.warning;
      user_id = some u.id;
      session_id = none;
      device_id = none;
    })
    commit
    raise (not_authenticated verification_failed))

  -- What follows the check of the code.
  unfoldable pub sign_in :
      (phone platform : Text)
      → Option Address
      → Option Text
      → Drawn
      → Exec (SessionOut × List Cookie)
  sign_in phone platform ip user_agent drawn = do
    known ←
        gets (λ w. select_one (λ (u : User). u.phone_hash == phone_fingerprint os phone) w.db.users)
    u ← enter phone drawn.user_id known
    tokens ←
        create_session os cfg u platform (device_label user_agent) ip none drawn.device_id
          drawn.session_id drawn.family_id drawn.refresh_token
    pure (
      record {
        access_token = tokens.access_token;
        expires_in = tokens.expires_in;
        user_id = u.id;
        display_name = u.display_name;
        is_new_account = is_none known;
      },
      set_auth_cookies cfg tokens.refresh_token drawn.csrf,
    )

  unfoldable pub verify_otp :
      (raw_phone : Text) (region : Option Text) (challenge_id code platform : Text)
      → Option Address
      → Option Text
      → Drawn
      → Exec (SessionOut × List Cookie)
  verify_otp raw_phone region challenge_id code platform ip user_agent drawn = do
    phone ← or_raise (normalize_phone os raw_phone region) (validation_failed invalid_phone)
    verified ← verify_challenge os cfg challenge_id code phone ip
    raise_if (not verified.1) (not_authenticated verification_failed)
    sign_in phone platform ip user_agent drawn

  -- The refresh route, with its check of the CSRF tokens. Where it raises, the cookie that it takes
  -- away is on a response that is not sent.
  unfoldable pub refresh :
      Request
      → (refresh_cookie : Option Text) → Option Address
      → Drawn
      → Exec (SessionOut × List Cookie)
  refresh r refresh_cookie ip drawn = do
    require_csrf cfg r
    presented ← or_raise (presented_token refresh_cookie) (not_authenticated plain)
    enforce LimitName.auth_refresh_ip (source ip)
    tokens ←
        catch_rejected (rotate_session os cfg presented ip drawn.session_id drawn.refresh_token)
    pure (
      record {
        access_token = tokens.access_token;
        expires_in = tokens.expires_in;
        user_id = tokens.user_id;
        display_name = tokens.display_name;
        is_new_account = false;
      },
      set_auth_cookies cfg tokens.refresh_token drawn.csrf,
    )
