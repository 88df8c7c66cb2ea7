-- ===== src/Security.antt =====
-- backend/app/core/security.py: one-time codes, the digests that stand for codes and numbers, phone
-- numbers and access tokens. The hash functions, signed URLs, uuids as text, signed tokens (jose) and the reading
-- of phone numbers (phonenumbers) are not the program's: they are arguments.
pub mod Codes
use runnerup_chat.Texts.{same_text, last_of}
use runnerup_chat.Config.{Settings, seconds}
use runnerup_chat.Base.{
  ℕ, zero, suc, ◌+◌, ◌/◌, ◌%◌, Bool, Option, some, none, if◌then◌else◌, [], ◌∷◌, ◌++◌, ◌==◌,
}
use runnerup_chat.Models.Accounts.{Uuid, Digest, Text, Time, SystemRole}

-- The payload of an access token. `iat` and `exp` are whole seconds.
pub record Claims : Type 0 where
  pub sub : Uuid
  pub sid : Uuid
  pub did : Uuid
  pub role : SystemRole
  pub iat : ℕ
  pub exp : ℕ
  pub iss : Text
  pub typ : Text

pub record Platform : Type 0 where
  -- `hmac.new(pepper, ...)` under the configured pepper, and `hashlib.sha256`.
  pub hmac_digest : Text → Digest
  pub sha256 : Text → Digest
  -- `uuid.UUID(text)`, which may raise `ValueError`, and `str(uuid)`.
  pub parse_uuid : Text → Option Uuid
  pub show_uuid : Uuid → Text
  -- `jwt.encode` and `jwt.decode` under the configured key; decoding, at a second, may raise `JWTError`.
  pub jwt_encode : Claims → Text
  pub jwt_decode : ℕ → Text → Option Claims
  -- The class `\w` of Python's `re`, a table of Unicode.
  pub is_word : ℕ → Bool
  -- The number that `phonenumbers` reads in a region, as E.164, if it is valid; and its country code.
  pub read_phone : Text → Option Text → Option Text
  pub country_code : Text → Text
  -- `uuid.hex`, and the URLs that the client of the object storage signs: to write a key, with a
  -- length; to read a key, with a content disposition. Both are good for so many seconds.
  pub hex : Uuid → Text
  pub presign_put : (key : Text) → ℕ → ℕ → Text
  pub presign_get : (key disposition : Text) → ℕ → Text

-- f"{n:0{digits}d}", for a number of no more digits than that.
unfoldable pub pad_decimal : ℕ → ℕ → Text
pad_decimal zero n = []
pad_decimal (suc digits) n = pad_decimal digits (n / 10) ++ (b'0' + n % 10) ∷ []

-- `numeric_otp`, on the number that `secrets.randbelow(10 ** digits)` drew.
unfoldable pub numeric_otp : ℕ → ℕ → Text
unfolding pad_decimal
numeric_otp digits drawn = pad_decimal digits drawn

abbrev pub chat_api : Text
chat_api = b'c' ∷ b'h' ∷ b'a' ∷ b't' ∷ b'-' ∷ b'a' ∷ b'p' ∷ b'i' ∷ []

abbrev pub access : Text
access = b'a' ∷ b'c' ∷ b'c' ∷ b'e' ∷ b's' ∷ b's' ∷ []

-- `hmac.compare_digest`
abbrev pub constant_time_equal : Digest → Digest → Bool
constant_time_equal a b = a == b

module _ (os : Platform) where
  unfoldable pub hash_otp : Uuid → Text → Digest
  hash_otp challenge_id code = os.hmac_digest (os.show_uuid challenge_id ++ b':' ∷ code)

  unfoldable pub phone_fingerprint : Text → Digest
  phone_fingerprint e164 = os.hmac_digest (b'p' ∷ b'h' ∷ b'o' ∷ b'n' ∷ b'e' ∷ b':' ∷ e164)

  -- `normalize_phone`, without an answer where it raises `InvalidPhoneNumber`.
  abbrev pub normalize_phone : Text → Option Text → Option Text
  normalize_phone raw default_region = os.read_phone raw default_region

  unfoldable pub phone_display_parts : Text → Text × Text
  phone_display_parts e164 = (os.country_code e164, last_of 4 e164)

  unfoldable pub access_claims : Settings → Time → Uuid → Uuid → Uuid → SystemRole → Claims
  access_claims cfg now user_id session_id device_id system_role = record {
    sub = user_id;
    sid = session_id;
    did = device_id;
    role = system_role;
    iat = now / 1_000_000;
    exp = (now + seconds cfg.access_token_ttl_seconds) / 1_000_000;
    iss = chat_api;
    typ = access;
  }

  unfoldable pub mint_access_token : Settings → Time → Uuid → Uuid → Uuid → SystemRole → Text
  unfolding access_claims
  mint_access_token cfg now user_id session_id device_id system_role =
      os.jwt_encode (access_claims cfg now user_id session_id device_id system_role)

  -- Without an answer where it raises `InvalidToken`.
  unfoldable pub decode_access_token : Time → Text → Option Claims
  decode_access_token now token = elim (os.jwt_decode (now / 1_000_000) token) [
    | none ↦ none
    | some c ↦ if same_text c.typ access then some c else none
  ]
