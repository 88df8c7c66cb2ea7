-- ===== src/Otp/Verify.antt =====
-- `verify_challenge` of services/otp.py: when a code is accepted, and what each answer leaves behind.
use runnerup_chat.Base.{
  ℕ, suc, ◌<◌, ◌≡◌, refl, ◌⊎◌, inl, inr, Bool, true, false, Option, none, some, arith, ◌==◌, leb,
  ltb, Bool-cases, Option-cases, is_some, select_one, update_rows, update_rows-update,
}
use runnerup_chat.Errors.{Result}
use runnerup_chat.Errors
use runnerup_chat.Config.{Settings}
use runnerup_chat.Security.{Platform, hash_otp, phone_fingerprint}
use runnerup_chat.Models.Accounts.{Uuid, Digest, Time, Text, Address, OtpChallenge}
use runnerup_chat.World.{Db, World, LimitName, Identity, commit, record_security, ◌>>=◌, ◌>>◌}
use runnerup_chat.Ratelimit.Enforce.{passed, limited, enforce-Enforced}
use runnerup_chat.Otp.{
  OtpResult, ok, invalid, expired, exhausted, is_challenge, burn, consume, judge, verify_row,
  verify_parsed, verify_challenge, enforce_address,
}

-- The tables after one challenge was changed.
abbrev pub with_change : Db → Uuid → (OtpChallenge → OtpChallenge) → Db
with_change d cid f = record d {
  challenges = update_rows (λ (c : OtpChallenge). c.id == cid) f d.challenges;
}

module _ (os : Platform) (cfg : Settings) where
  -- A challenge that stands, is in time, has an attempt left, and whose code is this one.
  abbrev pub Accepts : OtpChallenge → Text → Time → Type 0
  Accepts c code now =
      (c.consumed_at ≡ none)
      × (now < c.expires_at)
      × (c.attempts < c.max_attempts)
      × (c.code_hash ≡ hash_otp os c.id code)

  -- How a verification that found the challenge `c` ends. The answer is one of four; what is
  -- committed is the state before with the attempt counted, and with the challenge consumed if the
  -- answer is `ok` or `exhausted`. Nothing else is committed.
  pub data Verdict (c : OtpChallenge) (code : Text) (w : World)
      (x : Result (OtpResult × Bool) × World) : Type 0 where
    accepted :
        Accepts c code w.now
        → x.0 ≡ Errors.ok (ok, true)
        → x.1.saved ≡ with_change w.db c.id (λ r. consume w.now (burn r))
        → Verdict c code w x
    used_up :
        ¬ Accepts c code w.now
        → x.0 ≡ Errors.ok (exhausted, false)
        → x.1.saved ≡ with_change w.db c.id (λ r. consume w.now (burn r))
        → Verdict c code w x
    refused :
        ¬ Accepts c code w.now
        → (x.0 ≡ Errors.ok (invalid, false)) ⊎ (x.0 ≡ Errors.ok (expired, false))
        → x.1.saved ≡ with_change w.db c.id burn
        → Verdict c code w x

  twice :
      (w : World) (c : OtpChallenge)
      → with_change (with_change w.db c.id burn) c.id (consume w.now)
        ≡ with_change w.db c.id (λ r. consume w.now (burn r))
  twice w c = rw (
      update_rows-update (λ (r : OtpChallenge). r.id == c.id) burn (consume w.now) w.db.challenges
        (λ r. refl))

  pub verify_row-Verdict :
      (cid : Uuid) (fingerprint : Digest) (code : Text) (w : World) {c : OtpChallenge}
      → select_one (is_challenge cid fingerprint) w.db.challenges ≡ some c
      → Verdict c code w (verify_row os cfg cid fingerprint code w)
  unfolding verify_row judge commit record_security
  verify_row-Verdict cid fingerprint code w {c} e = elim (Bool-cases (is_some c.consumed_at)) [
    | inl spent ↦ refused (ground arith) (inl (ground arith)) (ground arith)
    | inr stands ↦ elim (Bool-cases (leb c.expires_at w.now)) [
      | inl late ↦ refused (ground arith) (inr (ground arith)) (ground arith)
      | inr timely ↦ elim (Bool-cases (ltb c.max_attempts (suc c.attempts))) [
        | inl over ↦ used_up (ground arith) (ground arith) (ground (arith, twice w c))
        | inr left_over ↦ elim (Bool-cases (c.code_hash == hash_otp os c.id code)) [
          | inl hit ↦ accepted (ground arith) (ground arith) (ground (arith, twice w c))
          | inr miss ↦ refused (ground arith) (inl (ground arith)) (ground arith)
        ]
      ]
    ]
  ]

  -- The challenge that this id and this number select.
  abbrev pub found_challenge : (cid_text phone : Text) → World → Option OtpChallenge
  found_challenge cid_text phone w = elim (os.parse_uuid cid_text) [
    | none ↦ none
    | some cid ↦ select_one (is_challenge cid (phone_fingerprint os phone)) w.db.challenges
  ]

  -- How a call of `verify_challenge` goes on once the limits have been asked: they stop it, or there
  -- is no such challenge and nothing changes, or the challenge that was found is judged.
  pub data Verified (cid_text code phone : Text) (w : World) (x : Result (OtpResult × Bool) × World)
      : Type 0 where
    stopped :
        (seconds : ℕ)
        → x.0 ≡ Errors.err (Errors.rate_limited seconds)
        → x.1.saved ≡ w.saved
        → x.1.db ≡ w.db
        → Verified cid_text code phone w x
    unknown :
        found_challenge cid_text phone w ≡ none
        → x.0 ≡ Errors.ok (invalid, false)
        → x.1.saved ≡ w.saved
        → x.1.db ≡ w.db
        → Verified cid_text code phone w x
    judged :
        (cid : Uuid) (c : OtpChallenge) (v : World)
        → os.parse_uuid cid_text ≡ some cid
        → select_one (is_challenge cid (phone_fingerprint os phone)) w.db.challenges ≡ some c
        → v.db ≡ w.db
        → v.saved ≡ w.saved
        → v.now ≡ w.now
        → Verdict c code v x
        → Verified cid_text code phone w x

  parsed_part :
      (cid_text code phone : Text) (w v : World) (o : Option Uuid)
      → os.parse_uuid cid_text ≡ o
      → v.db ≡ w.db
      → v.saved ≡ w.saved
      → v.now ≡ w.now
      → Verified cid_text code phone w (verify_parsed os cfg o (phone_fingerprint os phone) code v)
  unfolding verify_parsed verify_row
  parsed_part cid_text code phone w v none e d s t = unknown (rw (e, found_challenge) refl) refl s d
  parsed_part cid_text code phone w v (some cid) e d s t =
      elim (Option-cases
        (select_one (is_challenge cid (phone_fingerprint os phone)) v.db.challenges)) [
          | inl no_row ↦
              unknown (rw (e, rw d at no_row, found_challenge) refl) (rw (no_row, verify_row) refl)
                (rw (no_row, verify_row) s) (rw (no_row, verify_row) d)
          | inr (c, found) ↦
              judged cid c v e (rw d at found) d s t (verify_row-Verdict cid _ code v found)
        ]

  address_part :
      (cid_text code phone : Text) (ip : Option Address) (w v : World)
      → v.db ≡ w.db
      → v.saved ≡ w.saved
      → v.now ≡ w.now
      → Verified cid_text code phone w (
          (do
            enforce_address LimitName.otp_verify_ip ip
            verify_parsed os cfg (os.parse_uuid cid_text) (phone_fingerprint os phone) code)
            v)
  address_part cid_text code phone none w v d s t = parsed_part cid_text code phone w v _ refl d s t
  address_part cid_text code phone (some a) w v d s t =
      elim (enforce-Enforced LimitName.otp_verify_ip (Identity.known a) v) [
        | passed bs e ↦
            rw (e, ◌>>=◌)
              (parsed_part cid_text code phone w (record v { buckets = bs }) _ refl d s t)
        | limited bs n pos e ↦ rw (e, ◌>>=◌) (stopped n refl s d)
      ]

  -- Every verification ends in one of three ways: a limit stops it, or it answers invalid because no
  -- such challenge was issued to the number, and neither changes the tables; or the challenge is
  -- found, an attempt is counted, and it is accepted and consumed, or refused, or consumed as exhausted.
  pub verify_challenge-Verified :
      (cid_text code phone : Text) (ip : Option Address) (w : World)
      → Verified cid_text code phone w (verify_challenge os cfg cid_text code phone ip w)
  unfolding verify_challenge
  verify_challenge-Verified cid_text code phone ip w =
      elim (enforce-Enforced LimitName.otp_verify_phone
        (Identity.known (phone_fingerprint os phone)) w) [
          | passed bs e ↦
              rw (e, verify_challenge)
                (address_part cid_text code phone ip w (record w { buckets = bs }) refl refl refl)
          | limited bs n pos e ↦ rw (e, verify_challenge) (stopped n refl refl refl)
        ]

  -- A code is accepted only for a challenge of that id that was issued to that number, still stands,
  -- is in time, has an attempt left and has this code; the caller is told to go on exactly then.
  verify_challenge_sound :
      (cid_text code phone : Text) (ip : Option Address) (w w' : World) (go_on : Bool)
      → verify_challenge os cfg cid_text code phone ip w ≡ (Errors.ok (ok, go_on), w')
      → (go_on ≡ true)
        × ((cid : Uuid) × (c : OtpChallenge) × (os.parse_uuid cid_text ≡ some cid)
            × (select_one (is_challenge cid (phone_fingerprint os phone)) w.db.challenges ≡ some c)
            × Accepts c code w.now)
  verify_challenge_sound cid_text code phone ip w w' go_on e =
      elim (verify_challenge-Verified cid_text code phone ip w) [
        | stopped n r s d ↦ absurd (cc (r, e))
        | unknown h r s d ↦ absurd (cc (r, e))
        | judged cid c v p found d s t verdict ↦ elim verdict [
          | accepted a r done ↦ (cc (r, e), (cid, c, p, found, rw t at a))
          | used_up a r done ↦ absurd (cc (r, e))
          | refused a r done ↦ elim r [ inl x ↦ absurd (cc (x, e)) | inr x ↦ absurd (cc (x, e)) ]
        ]
      ]
