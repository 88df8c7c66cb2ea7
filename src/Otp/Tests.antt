-- ===== src/Otp/Tests.antt =====
-- Concrete runs of services/otp.py, and of the codes of core/security.py.
use runnerup_chat.Base.{
  ℕ, ◌+◌, ◌⊎◌, false, update_rows, select_all, ◌==◌, ◌&&◌, select_one, ◌≡◌, ◌≤◌, refl, true, none,
  [], ◌∷◌, arith, count_rows,
}
use runnerup_chat.Security.{numeric_otp, phone_fingerprint}
use runnerup_chat.World.{World, commit}
use runnerup_chat.Ratelimit.{
  enforce, check, check_rounds, eval_window, sliding_window, limits, find_slot, put_slot, prune,
  live, zadd, oldest, name_code, identity_eq, is_bucket,
}
use runnerup_chat.Otp.{
  OtpResult, verify_challenge, replace_challenge, send_sms, new_challenge, supersede,
  issue_challenge, is_outstanding,
}
use runnerup_chat.Otp.Verify.{Verified, verify_challenge-Verified}
use runnerup_chat.Otp.Issue.{one_code_live}
use runnerup_chat.Otp.Fresh.{fresh_code_accepted}
use runnerup_chat.Errors.{rate_limited}
use runnerup_chat.Errors
use runnerup_chat.Otp.Once.{verify, wait, count_wins, one_win}
use runnerup_chat.Samples.{sample_platform, sample_settings, phone, code, start, noon}

one_win_example :
    count_wins sample_platform sample_settings 7
      (verify (7 ∷ []) code phone none ∷ wait 5 ∷ verify (7 ∷ []) code phone none ∷ [])
      start
    ≤ 1
one_win_example =
    one_win sample_platform sample_settings 7
      (verify (7 ∷ []) code phone none ∷ wait 5 ∷ verify (7 ∷ []) code phone none ∷ []) start tt
      refl

verify_challenge-Verified_example :
    Verified sample_platform sample_settings
      (7 ∷ [])
      code
      phone
      start
      (verify_challenge sample_platform sample_settings (7 ∷ []) code phone none start)
verify_challenge-Verified_example =
    verify_challenge-Verified sample_platform sample_settings (7 ∷ []) code phone none start

one_code_live_example :
    (count_rows
        (is_outstanding (phone_fingerprint sample_platform phone))
        (issue_challenge sample_platform sample_settings phone none none 8 123456 false
          start).1.saved.challenges
      ≡ 1)
    × (count_rows
          (λ c. is_outstanding (phone_fingerprint sample_platform phone) c && c.id == 8)
          (issue_challenge sample_platform sample_settings phone none none 8 123456 false
            start).1.saved.challenges
        ≡ 1)
unfolding issue_challenge replace_challenge send_sms new_challenge supersede phone_fingerprint
    commit enforce check check_rounds eval_window sliding_window limits find_slot put_slot prune
    live zadd oldest name_code identity_eq is_bucket select_one select_all
one_code_live_example =
    one_code_live sample_platform sample_settings phone none none 8 123456 false start (λ n e. cc e)

-- The state that a request for a code leaves, a second later.
abbrev asked : World
asked =
    let v =
      (issue_challenge sample_platform sample_settings phone none none 8 123456 true start).1 in
    record v { db = v.saved; now = noon + 1000000 }

fresh_code_accepted_example :
    ((n : ℕ) × ((verify_challenge sample_platform sample_settings
          (8 ∷ [])
          (numeric_otp 6 123456)
          phone
          none
          asked).0
        ≡ Errors.err (rate_limited n)))
    ⊎ ((verify_challenge sample_platform sample_settings
          (8 ∷ [])
          (numeric_otp 6 123456)
          phone
          none
          asked).0
        ≡ Errors.ok (OtpResult.ok, true))
unfolding issue_challenge replace_challenge send_sms new_challenge supersede phone_fingerprint
    commit enforce check check_rounds eval_window sliding_window limits find_slot put_slot prune
    live zadd oldest name_code identity_eq is_bucket select_one select_all update_rows
fresh_code_accepted_example =
    fresh_code_accepted sample_platform sample_settings phone none 8 123456 (8 ∷ []) none none true
      start (noon + 1000000) (λ n e. cc e) refl (omega arith) refl (omega arith)
