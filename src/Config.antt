-- ===== src/Config.antt =====
-- backend/app/core/config.py: the settings that the modelled operations read.
use runnerup_chat.Base.{ℕ, ◌*◌, Bool, true, List, [], ◌∷◌, map, select_all, not}
use runnerup_chat.Texts.{is_space, strip_of, split_on}
use runnerup_chat.Models.Accounts.{Time, Text}

pub data SmsProvider : Type 0 where
  console twilio : SmsProvider

pub record Settings : Type 0 where
  pub is_production : Bool
  pub cookie_secure : Bool
  pub access_token_ttl_seconds : ℕ
  pub refresh_token_ttl_seconds : ℕ
  pub otp_ttl_seconds : ℕ
  pub otp_max_attempts : ℕ
  pub max_upload_bytes : ℕ
  pub sms_provider : SmsProvider
  pub allowed_origins : Text
  pub ws_ticket_ttl_seconds : ℕ
  pub upload_url_ttl_seconds : ℕ
  pub download_url_ttl_seconds : ℕ

-- `timedelta(seconds=n)`, in the microseconds of a moment.
abbrev pub seconds : ℕ → Time
seconds n = n * 1_000_000

abbrev is_filled : Text → Bool
is_filled [] = not true
is_filled (c ∷ cs) = true

-- `Settings.origins`
unfoldable pub origins : Settings → List Text
origins cfg = select_all is_filled (map (strip_of is_space) (split_on b',' [] cfg.allowed_origins))
