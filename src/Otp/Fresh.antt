-- ===== src/Otp/Fresh.antt =====
-- A code of services/otp.py from its issue to its use.
use runnerup_chat.Base.{
  ℕ, ◌+◌, ◌≤◌, ◌<◌, ◌≡◌, refl, ◌⊎◌, inl, inr, Bool, true, Option, none, some, List, [], ◌∷◌, ◌++◌,
  arith, ◌==◌, ==_refl, Bool-cases, select_one, select_one-append, update_rows,
}
use runnerup_chat.Errors.{Result, rate_limited}
use runnerup_chat.Errors
use runnerup_chat.Config.{Settings, seconds}
use runnerup_chat.Security.{Platform, numeric_otp, phone_fingerprint}
use runnerup_chat.Models.Accounts.{Uuid, Digest, Time, Text, Address, OtpChallenge}
use runnerup_chat.World.{World}
use runnerup_chat.Otp.{
  OtpResult, is_challenge, supersede, new_challenge, issue_challenge, verify_challenge,
}
use runnerup_chat.Otp.Issue.{stopped, issued, issue_challenge-Issued}
use runnerup_chat.Otp.Verify.{
  found_challenge, Accepts, Verified, Verdict, accepted, used_up, refused,
  verify_challenge-Verified,
}
use runnerup_chat.Otp.Verify

no_old :
    (cid : Uuid) (fp : Digest) (now : Time) (cs : List OtpChallenge)
    → select_one (λ (c : OtpChallenge). c.id == cid) cs ≡ none
    → select_one (is_challenge cid fp) (supersede fp now cs) ≡ none
unfolding supersede update_rows select_one
no_old cid fp now [] h = refl
no_old cid fp now (c ∷ cs) h = elim (Bool-cases (c.id == cid)) [
  | inl hit ↦ absurd (cc (rw hit at h))
  | inr miss ↦ ground (arith, no_old cid fp now cs (rw miss at h))
]

module _ (os : Platform) (cfg : Settings) (phone : Text) (agent : Option Text) (cid drawn : ℕ) where
  new_is_found :
      (fp : Digest) (ip : Option Address) (now : Time) (cs : List OtpChallenge)
      → select_one (λ (c : OtpChallenge). c.id == cid) cs ≡ none
      → select_one
          (is_challenge cid fp)
          (supersede fp now cs ++ new_challenge os cfg fp ip agent cid drawn now ∷ [])
        ≡ some (new_challenge os cfg fp ip agent cid drawn now)
  unfolding new_challenge select_one
  new_is_found fp ip now cs h =
      rw
        (
          select_one-append (is_challenge cid fp) (supersede fp now cs)
              (new_challenge os cfg fp ip agent cid drawn now ∷ []),
          no_old cid fp now cs h,
          ==_refl cid,
          ==_refl fp,
        )
        refl

  -- A code that was sent is accepted. Where an issue for a number is not stopped by a limit, its id is
  -- new, the settings allow at least one attempt and the id's text is read as the id, then in the state
  -- that the issue committed, at any time before the code expires, the next verification of that
  -- number with that code answers `ok`, unless a limit stops it.
  pub fresh_code_accepted :
      (cid_text : Text) (ip ip' : Option Address) (delivered : Bool) (w : World) (later : Time)
      → ((n : ℕ)
          → (issue_challenge os cfg phone ip agent cid drawn delivered w).0
            ≡ Errors.err (rate_limited n)
          → ⊥)
      → select_one (λ (c : OtpChallenge). c.id == cid) w.db.challenges ≡ none
      → 1 ≤ cfg.otp_max_attempts
      → os.parse_uuid cid_text ≡ some cid
      → later < w.now + seconds cfg.otp_ttl_seconds
      → let v = (issue_challenge os cfg phone ip agent cid drawn delivered w).1 in
        let answer =
          (verify_challenge os cfg cid_text
            (numeric_otp 6 drawn)
            phone
            ip'
            (record v { db = v.saved; now = later })).0 in
        ((n : ℕ) × (answer ≡ Errors.err (rate_limited n)))
        ⊎ (answer ≡ Errors.ok (OtpResult.ok, true))
  unfolding new_challenge
  fresh_code_accepted cid_text ip ip' delivered w later go new_id some_try reads timely =
      elim (issue_challenge-Issued os cfg phone ip agent cid drawn delivered w) [
        | stopped n r s d ↦ absurd (go n r)
        | issued r e ↦
            let fp = phone_fingerprint os phone in
            let v : World =
              record ((issue_challenge os cfg phone ip agent cid drawn delivered w).1) {
                db = (issue_challenge os cfg phone ip agent cid drawn delivered w).1.saved;
                now = later;
              } in
            let at_hand : select_one (is_challenge cid fp) v.db.challenges
                ≡ some (new_challenge os cfg fp ip agent cid drawn w.now) =
              rw e (new_is_found fp ip w.now w.db.challenges new_id) in
            elim (verify_challenge-Verified os cfg cid_text (numeric_otp 6 drawn) phone ip' v) [
              | Verify.stopped n h s d ↦ inl (n, h)
              | Verify.unknown h a s d ↦ absurd (cc (rw (reads, at_hand, found_challenge) at h))
              | Verify.judged cid' c u p f d s t verdict ↦
                  let same : cid' ≡ cid = ground (arith, p, reads) in
                  let it : c ≡ new_challenge os cfg fp ip agent cid drawn w.now =
                    ground (arith, rw same at f, at_hand) in
                  let good : Accepts os cfg c (numeric_otp 6 drawn) u.now =
                    rw (it, t) (refl, timely, some_try, refl) in
                  elim verdict [
                    | accepted a h s' ↦ inr h
                    | used_up a h s' ↦ absurd (a good)
                    | refused a h s' ↦ absurd (a good)
                  ]
            ]
      ]
