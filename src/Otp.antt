-- ===== src/Otp.antt =====
-- backend/app/services/otp.py, with backend/app/services/sms.py.
pub mod Verify
pub mod Once
pub mod Issue
pub mod Fresh
mod Tests
use runnerup_chat.Base.{
  ℕ, suc, ◌+◌, ◌==◌, leb, ltb, Bool, true, false, not, ◌&&◌, Option, none, some, List, [], ◌∷◌,
  ◌++◌, if◌then◌else◌, is_none, is_some, select_one, update_rows,
}
use runnerup_chat.Errors.{runtime_error}
use runnerup_chat.Config.{Settings, SmsProvider, seconds}
use runnerup_chat.Security.{Platform, hash_otp, phone_fingerprint, numeric_otp, constant_time_equal}
use runnerup_chat.Models.Accounts.{Uuid, Digest, Time, Text, Address, OtpChallenge}
use runnerup_chat.Models.Safety.{SecurityEvent, SecurityKind, Severity}
use runnerup_chat.World.{
  ◌>>=◌, ◌>>◌, Exec, Identity, LimitName, pure, gets, raise_if, execute, commit, record_security,
}
use runnerup_chat.Ratelimit.{enforce}

-- `if ip: await ratelimit.enforce(name, ip)`
abbrev pub enforce_address : LimitName → Option Address → Exec (Unit {0})
enforce_address n ip = elim ip [ none ↦ pure tt | some a ↦ enforce n (Identity.known a) ]

-- `send_sms`: what the network does is `delivered`.
unfoldable pub send_sms : Settings → Bool → Exec (Unit {0})
send_sms cfg delivered = elim cfg.sms_provider [
  | SmsProvider.console ↦ raise_if cfg.is_production runtime_error
  | SmsProvider.twilio ↦ raise_if (not delivered) runtime_error
]

pub record Challenge : Type 0 where
  pub challenge_id : Uuid
  pub expires_at : Time

pub data OtpResult : Type 0 where
  ok invalid expired exhausted : OtpResult

abbrev pub is_outstanding : Digest → OtpChallenge → Bool
is_outstanding fingerprint c = c.phone_hash == fingerprint && is_none c.consumed_at

-- `UPDATE ... SET consumed_at = now` on the challenges that still stand for a number.
unfoldable pub supersede : Digest → Time → List OtpChallenge → List OtpChallenge
supersede fingerprint now =
    update_rows (is_outstanding fingerprint) (λ c. record c { consumed_at = some now })

abbrev pub is_challenge : Uuid → Digest → OtpChallenge → Bool
is_challenge cid fingerprint c = c.id == cid && c.phone_hash == fingerprint

-- A write to the fields of one challenge.
abbrev pub modify_challenge : Uuid → (OtpChallenge → OtpChallenge) → Exec (Unit {0})
modify_challenge cid f =
    execute
      λ d. record d { challenges = update_rows (λ (c : OtpChallenge). c.id == cid) f d.challenges }

abbrev pub burn : OtpChallenge → OtpChallenge
burn c = record c { attempts = suc c.attempts }

abbrev pub consume : Time → OtpChallenge → OtpChallenge
consume now c = record c { consumed_at = some now }

abbrev noted : SecurityKind → Severity → SecurityEvent
noted k s = record { event = k; severity = s; user_id = none; session_id = none; device_id = none }

module _ (os : Platform) (cfg : Settings) where
  unfoldable pub new_challenge :
      Digest → Option Address → Option Text → (challenge_id drawn : ℕ) → Time → OtpChallenge
  new_challenge fingerprint ip user_agent challenge_id drawn now = record {
    id = challenge_id;
    phone_hash = fingerprint;
    code_hash = hash_otp os challenge_id (numeric_otp 6 drawn);
    attempts = 0;
    max_attempts = cfg.otp_max_attempts;
    request_ip = ip;
    user_agent_hash = elim user_agent [ none ↦ none | some a ↦ some (os.sha256 a) ];
    consumed_at = none;
    expires_at = now + seconds cfg.otp_ttl_seconds;
  }

  -- The two statements of one issue, up to the commit.
  unfoldable pub replace_challenge :
      Digest → Option Address → Option Text → (challenge_id drawn : ℕ) → Exec (Unit {0})
  replace_challenge fingerprint ip user_agent challenge_id drawn w =
      (do
        execute (λ d. record d { challenges = supersede fingerprint w.now d.challenges })
        execute (λ d. record d {
          challenges =
              d.challenges ++ new_challenge fingerprint ip user_agent challenge_id drawn w.now ∷ [];
        })
        commit)
        w

  -- The uuid and the number behind the code are drawn anew for each call, and given as arguments.
  unfoldable pub issue_challenge :
      Text
      → Option Address
      → Option Text
      → (challenge_id drawn : ℕ) (delivered : Bool) → Exec Challenge
  issue_challenge phone_e164 ip user_agent challenge_id drawn delivered = do
    let fingerprint = phone_fingerprint os phone_e164
    enforce LimitName.otp_request_phone (Identity.known fingerprint)
    enforce_address LimitName.otp_request_ip ip
    replace_challenge fingerprint ip user_agent challenge_id drawn
    send_sms cfg delivered
    now ← gets (λ w. w.now)
    pure (record { challenge_id = challenge_id; expires_at = now + seconds cfg.otp_ttl_seconds })

  -- What is decided about a challenge whose attempt has been counted. (`now` is read once.)
  unfoldable pub judge : OtpChallenge → Text → Time → Exec (OtpResult × Bool)
  judge c code now =
      let matches = constant_time_equal c.code_hash (hash_otp os c.id code) in
      if is_some c.consumed_at
      then (do
        commit
        record_security (noted SecurityKind.otp_replay_attempt Severity.warning)
        pure (invalid, false))
      else if leb c.expires_at now
      then (do commit; pure (expired, false))
      else if ltb c.max_attempts c.attempts
      then (do
        modify_challenge c.id (consume now)
        commit
        record_security (noted SecurityKind.otp_attempts_exhausted Severity.warning)
        pure (exhausted, false))
      else if not matches
      then (do
        commit
        record_security (noted SecurityKind.otp_invalid Severity.info)
        pure (invalid, false))
      else (do modify_challenge c.id (consume now); commit; pure (ok, true))

  unfoldable pub verify_row : Uuid → Digest → Text → Exec (OtpResult × Bool)
  verify_row cid fingerprint code w =
      elim (select_one (is_challenge cid fingerprint) w.db.challenges) [
        | none ↦ pure (invalid, false) w
        | some c ↦ (do modify_challenge c.id burn; judge (burn c) code w.now) w
      ]

  -- After `uuid.UUID(challenge_id)`.
  unfoldable pub verify_parsed : Option Uuid → Digest → Text → Exec (OtpResult × Bool)
  verify_parsed none fingerprint code = pure (invalid, false)
  verify_parsed (some cid) fingerprint code = verify_row cid fingerprint code

  unfoldable pub verify_challenge : Text → Text → Text → Option Address → Exec (OtpResult × Bool)
  verify_challenge challenge_id code phone_e164 ip = do
    let fingerprint = phone_fingerprint os phone_e164
    enforce LimitName.otp_verify_phone (Identity.known fingerprint)
    enforce_address LimitName.otp_verify_ip ip
    verify_parsed (os.parse_uuid challenge_id) fingerprint code
