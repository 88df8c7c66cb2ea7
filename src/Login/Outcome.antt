-- ===== src/Login/Outcome.antt =====
-- How a sign-in of backend/app/api/v1/auth.py ends.
use runnerup_chat.Base.{
  ℕ, ◌≡◌, refl, ◌⊎◌, inl, inr, Bool, true, false, Option, none, some, List, ◌==◌, eq_of_==,
  Bool-cases, Option-cases, is_none, select_one, select_one-holds,
}
use runnerup_chat.Errors.{
  Result, ok, err, AppError, rate_limited, validation_failed, not_authenticated,
  verification_failed, invalid_phone, integrity_error,
}
use runnerup_chat.Config.{Settings}
use runnerup_chat.Security.{Platform, normalize_phone, phone_display_parts, phone_fingerprint}
use runnerup_chat.Models.Accounts.{Uuid, Text, Address, User, is_usable}
use runnerup_chat.World.{World, commit, record_audit, record_security, publish}
use runnerup_chat.Otp.{OtpResult, verify_challenge}
use runnerup_chat.Otp.Verify.{
  Verified, Verdict, accepted, used_up, refused, verify_challenge-Verified,
}
use runnerup_chat.Otp.Verify
use runnerup_chat.Sessions.{IssuedTokens, bind_device, create_session, is_platform}
use runnerup_chat.Login.{
  device_label, set_auth_cookies, Drawn, SessionOut, Cookie, enter, sign_in, verify_otp, new_user,
}

-- What a caller that is turned away is told: that the number is none, to wait, or that it failed.
pub data Uniform : AppError → Type 0 where
  no_number : Uniform (validation_failed invalid_phone)
  wait : (n : ℕ) → Uniform (rate_limited n)
  failed : Uniform (not_authenticated verification_failed)

-- The ways in which a sign-in ends.
pub data SignedIn (os : Platform) (cfg : Settings) (raw_phone : Text) (region : Option Text)
    (challenge_id code platform : Text) (ip : Option Address) (w : World)
    (x : Result (SessionOut × List Cookie) × World) : Type 0 where
  turned_away :
      (e : AppError)
      → Uniform e
      → x.0 ≡ err e
      → SignedIn os cfg raw_phone region challenge_id code platform ip w x
  welcomed :
      (phone : Text) (r : OtpResult) (u : User) (out : SessionOut × List Cookie)
      → normalize_phone os raw_phone region ≡ some phone
      → (verify_challenge os cfg challenge_id code phone ip w).0 ≡ ok (r, true)
      → is_platform platform ≡ true
      → u.phone_hash ≡ phone_fingerprint os phone
      → is_usable u ≡ true
      → out.0.user_id ≡ u.id
      → x.0 ≡ ok out
      → SignedIn os cfg raw_phone region challenge_id code platform ip w x
  platform_refused :
      (phone : Text) (r : OtpResult)
      → normalize_phone os raw_phone region ≡ some phone
      → (verify_challenge os cfg challenge_id code phone ip w).0 ≡ ok (r, true)
      → is_platform platform ≡ false
      → x.0 ≡ err integrity_error
      → SignedIn os cfg raw_phone region challenge_id code platform ip w x

module _ (os : Platform) (cfg : Settings) where
  -- A new session on a known platform is made, and on another one the database refuses it.
  create_session-cases :
      (u : User) (platform label : Text) (ip : Option Address) (new_device session_id family : Uuid)
      (token : Text) (w : World)
      → ((is_platform platform ≡ true)
          × (t : IssuedTokens) × (v : World) × (create_session os cfg u platform label ip none
                new_device session_id family token w
              ≡ (ok t, v)))
        ⊎ ((is_platform platform ≡ false)
            × (create_session os cfg u platform label ip none new_device session_id family token w
                ≡ (err integrity_error, w)))
  unfolding create_session bind_device commit record_audit publish
  create_session-cases u platform label ip new_device session_id family token w =
      elim (Bool-cases (is_platform platform)) [
        | inl known ↦ rw known (inl (refl, _, _, refl))
        | inr other ↦ rw other (inr (refl, refl))
      ]

  verify_challenge-cases :
      (challenge_id code phone : Text) (ip : Option Address) (w : World)
      → let x = verify_challenge os cfg challenge_id code phone ip w in
        ((n : ℕ) × (x.0 ≡ err (rate_limited n))) ⊎ ((r : OtpResult × Bool) × (x.0 ≡ ok r))
  verify_challenge-cases challenge_id code phone ip w =
      elim (verify_challenge-Verified os cfg challenge_id code phone ip w) [
        | Verify.stopped n e s d ↦ inl (n, e)
        | Verify.unknown h e s d ↦ inr (_, e)
        | Verify.judged cid c v p f d s t verdict ↦ elim verdict [
          | accepted a e s' ↦ inr (_, e)
          | used_up a e s' ↦ inr (_, e)
          | refused a (inl e) s' ↦ inr (_, e)
          | refused a (inr e) s' ↦ inr (_, e)
        ]
      ]

  -- The account that a sign-in enters is usable and has the number, or there is none to enter.
  enter-cases :
      (phone : Text) (new_id : Uuid) (w : World)
      → let x =
          enter os cfg phone new_id
            (select_one (λ (u : User). u.phone_hash == phone_fingerprint os phone) w.db.users)
            w in
        (x.0 ≡ err (not_authenticated verification_failed))
        ⊎ ((u : User) × (v : World) × (x ≡ (ok u, v))
            × (u.phone_hash ≡ phone_fingerprint os phone)
            × (is_usable u ≡ true))
  unfolding enter commit record_audit record_security
  enter-cases phone new_id w =
      elim (Option-cases
        (select_one (λ (u : User). u.phone_hash == phone_fingerprint os phone) w.db.users)) [
          | inl new ↦
              let parts = phone_display_parts os phone in
              rw new (
                inr (
                  new_user new_id (phone_fingerprint os phone) parts.0 parts.1,
                  _,
                  refl,
                  refl,
                  refl,
                ))
          | inr (u, found) ↦ elim (Bool-cases (is_usable u)) [
            | inr barred ↦ rw (found, barred, enter) (inl refl)
            | inl usable ↦
                rw (found, usable, enter)
                  (inr (u, w, refl, eq_of_== _ _ (select_one-holds _ _ found), usable))
          ]
        ]

  -- What is left of a sign-in once the code was accepted.
  sign_in-cases :
      (phone platform : Text) (ip : Option Address) (agent : Option Text) (drawn : Drawn)
      (w : World)
      → let x = sign_in os cfg phone platform ip agent drawn w in
        (x.0 ≡ err (not_authenticated verification_failed))
        ⊎ ((is_platform platform ≡ false) × (x.0 ≡ err integrity_error))
        ⊎ ((is_platform platform ≡ true)
            × (u : User) × (out : SessionOut × List Cookie) × (u.phone_hash
                ≡ phone_fingerprint os phone)
            × (is_usable u ≡ true)
            × (out.0.user_id ≡ u.id)
            × (x.0 ≡ ok out))
  unfolding sign_in
  sign_in-cases phone platform ip agent drawn w =
      let known =
        select_one (λ (u : User). u.phone_hash == phone_fingerprint os phone) w.db.users in
      elim (enter-cases phone drawn.user_id w) [
        | inl e ↦ inl (rw e refl)
        | inr (u, v, e, owned, usable) ↦
            elim (create_session-cases u platform (device_label agent) ip drawn.device_id
              drawn.session_id drawn.family_id drawn.refresh_token v) [
                | inr (other, e') ↦ inr (inl (other, rw (e, e') refl))
                | inl (listed, t, v', e') ↦
                    let out : SessionOut × List Cookie = (
                      record {
                        access_token = t.access_token;
                        expires_in = t.expires_in;
                        user_id = u.id;
                        display_name = u.display_name;
                        is_new_account = is_none known;
                      },
                      set_auth_cookies cfg t.refresh_token drawn.csrf,
                    ) in
                    inr (inr (listed, u, out, owned, usable, refl, rw (e, e') refl))
              ]
      ]

  -- A sign-in ends in one of three ways. Whoever is turned away is told one of three things: that the
  -- number is none, how long to wait, or that the verification failed, whatever the reason and whether
  -- or not the number has an account. And the user of an answered sign-in has that number and is usable,
  -- after a check of the code that succeeded, on a platform that the database knows. Where the platform is
  -- another one and the code was right, the database refuses the device, and the sign-in ends in that error.
  -- The address of the caller is one that the database can store, and no other request interferes.
  pub verify_otp-SignedIn :
      (raw_phone : Text) (region : Option Text) (challenge_id code platform : Text)
      (ip : Option Address) (agent : Option Text) (drawn : Drawn) (w : World)
      → SignedIn os cfg raw_phone region challenge_id code platform ip w
          (verify_otp os cfg raw_phone region challenge_id code platform ip agent drawn w)
  unfolding verify_otp
  verify_otp-SignedIn raw_phone region challenge_id code platform ip agent drawn w =
      elim (Option-cases (normalize_phone os raw_phone region)) [
        | inl bad ↦ turned_away _ no_number (rw bad refl)
        | inr (phone, read) ↦ elim (verify_challenge-cases challenge_id code phone ip w) [
          | inl (n, e) ↦ turned_away _ (wait n) (rw (read, e) refl)
          | inr ((r, true), e) ↦
              elim (sign_in-cases phone platform ip agent drawn
                (verify_challenge os cfg challenge_id code phone ip w).1) [
                  | inl barred ↦ turned_away _ failed (rw (read, e, barred) refl)
                  | inr (inl (other, stopped)) ↦
                      platform_refused phone r read e other (rw (read, e, stopped) refl)
                  | inr (inr (listed, u, out, owned, usable, it, done)) ↦
                      welcomed phone r u out read e listed owned usable it (rw (read, e, done) refl)
                ]
          | inr ((r, false), e) ↦ turned_away _ failed (rw (read, e) refl)
        ]
      ]
