-- ===== src/Login/Tests.antt =====
-- Runs of backend/app/api/v1/auth.py.
use runnerup_chat.Base.{none, [], ◌∷◌}
use runnerup_chat.Texts.{codes}
use runnerup_chat.Login.{Drawn, verify_otp}
use runnerup_chat.Login.Leaving.{revoke_device}
use runnerup_chat.Login.Outcome.{SignedIn, verify_otp-SignedIn}
use runnerup_chat.Login.Devices.{Removed, revoke_device-Removed}
use runnerup_chat.Samples.{
  sample_platform, sample_settings, by_alice, busy, start, phone, code, hello,
}

abbrev fresh : Drawn
fresh = record {
  user_id = 4;
  device_id = 43;
  session_id = 54;
  family_id = 64;
  refresh_token = hello;
  csrf = hello;
}

verify_otp-SignedIn_example :
    SignedIn sample_platform sample_settings phone none (7 ∷ []) code (codes "WEB") none start (
      verify_otp sample_platform sample_settings phone none
        (7 ∷ [])
        code
        (codes "WEB")
        none
        none
        fresh
        start)
verify_otp-SignedIn_example =
    verify_otp-SignedIn sample_platform sample_settings phone none (7 ∷ []) code (codes "WEB") none
      none fresh start

revoke_device-Removed_example :
    Removed sample_platform by_alice
      (40 ∷ [])
      busy
      (revoke_device sample_settings sample_platform by_alice (40 ∷ []) busy)
revoke_device-Removed_example =
    revoke_device-Removed sample_settings sample_platform by_alice (40 ∷ []) busy
