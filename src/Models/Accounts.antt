-- ===== src/Models/Accounts.antt =====
-- backend/app/db/models.py: users, sign-in challenges, devices and sessions. Columns that no
-- modelled operation reads or writes (avatar, biography, push token and the like) are left out.
use runnerup_chat.Base.{ℕ, ◌&&◌, Bool, true, false, List, Option, is_none}

-- A uuid, a digest and a moment in microseconds are numbers; a text is a list of code points.
abbrev pub Uuid : Type 0
Uuid = ℕ

abbrev pub Digest : Type 0
Digest = ℕ

abbrev pub Time : Type 0
Time = ℕ

abbrev pub Text : Type 0
Text = List ℕ

-- The address of a client.
abbrev pub Address : Type 0
Address = ℕ

pub data SystemRole : Type 0 where
  user moderator admin super_admin : SystemRole

pub data AccountState : Type 0 where
  active restricted suspended deleted : AccountState

pub record User : Type 0 where
  pub id : Uuid
  pub phone_hash : Digest
  pub phone_last4 : Text
  pub phone_country : Text
  pub username : Option Text
  pub display_name : Text
  pub system_role : SystemRole
  pub account_state : AccountState
  pub deleted_at : Option Time

abbrev pub is_active : AccountState → Bool
is_active AccountState.active = true
is_active AccountState.restricted = false
is_active AccountState.suspended = false
is_active AccountState.deleted = false

-- `User.is_usable`
abbrev pub is_usable : User → Bool
is_usable u = is_active u.account_state && is_none u.deleted_at

pub record OtpChallenge : Type 0 where
  pub id : Uuid
  pub phone_hash : Digest
  pub code_hash : Digest
  pub attempts : ℕ
  pub max_attempts : ℕ
  pub request_ip : Option Address
  pub user_agent_hash : Option Digest
  pub consumed_at : Option Time
  pub expires_at : Time

pub record UserDevice : Type 0 where
  pub id : Uuid
  pub user_id : Uuid
  pub platform : Text
  pub display_label : Text
  pub ip_first_seen : Option Address
  pub ip_last_seen : Option Address
  pub created_at : Time
  pub last_active_at : Time
  pub revoked_at : Option Time

pub data RevokeReason : Type 0 where
  refresh_reuse_detected user_logout user_logout_all device_revoked account_suspended : RevokeReason

pub record UserSession : Type 0 where
  pub id : Uuid
  pub user_id : Uuid
  pub device_id : Uuid
  pub family_id : Uuid
  pub refresh_hash : Digest
  pub previous_id : Option Uuid
  pub rotated_at : Option Time
  pub revoked_at : Option Time
  pub revoked_reason : Option RevokeReason
  pub expires_at : Time
  pub last_used_at : Option Time
