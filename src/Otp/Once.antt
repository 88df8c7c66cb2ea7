-- ===== src/Otp/Once.antt =====
-- Over any history of requests to services/otp.py a challenge lets one caller through at most, and
-- the security log keeps nothing of what went wrong.
use runnerup_chat.Base.{
  ℕ, ◌+◌, ◌≤◌, ◌≡◌, ◌≢◌, refl, sym, ap, ◌∙◌, inl, inr, Bool, true, false, Option, none, some, List,
  [], ◌∷◌, arith, ◌==◌, All, All-append, All-update, All-update_new, select_one-All,
  select_one-holds, is_some, update_rows, select_one, if◌then◌else◌, Bool-cases, Option-cases, ◌&&◌,
}
use runnerup_chat.Errors.{Result}
use runnerup_chat.Errors
use runnerup_chat.Config.{Settings}
use runnerup_chat.Security.{Platform, phone_fingerprint}
use runnerup_chat.Models.Accounts.{Uuid, Digest, Time, Text, Address, OtpChallenge}
use runnerup_chat.World.{World, request}
use runnerup_chat.Otp.{
  OtpResult, ok, is_challenge, burn, consume, verify_challenge, issue_challenge, supersede,
  Challenge, new_challenge,
}
use runnerup_chat.Otp.Issue.{Issued, issued, issue_challenge-Issued}
use runnerup_chat.Otp.Verify.{
  accepted, used_up, refused, Verified, stopped, unknown, judged, verify_challenge-Verified,
}

-- Every row of that id is consumed.
abbrev pub IsSpent : Uuid → List OtpChallenge → Type 0
IsSpent cid = All (λ c. (c.id == cid) ≡ true → is_some c.consumed_at ≡ true)

spent_row :
    (cid : Uuid) (fingerprint : Digest) (cs : List OtpChallenge) (c : OtpChallenge)
    → IsSpent cid cs
    → select_one (is_challenge cid fingerprint) cs ≡ some c
    → is_some c.consumed_at ≡ true
spent_row cid fp cs c h e =
    select_one-All _ (is_challenge cid fp) cs h e
      (ground (arith, select_one-holds (is_challenge cid fp) cs e))

-- Neither an attempt nor a consumption brings a spent challenge back.
update-IsSpent :
    (cid other : Uuid) (f : OtpChallenge → OtpChallenge) (cs : List OtpChallenge)
    → ((c : OtpChallenge) → (f c).id ≡ c.id)
    → ((c : OtpChallenge) → is_some c.consumed_at ≡ true → is_some (f c).consumed_at ≡ true)
    → IsSpent cid cs
    → IsSpent cid (update_rows (λ (c : OtpChallenge). c.id == other) f cs)
update-IsSpent cid other f cs same keep h =
    All-update _ _ f cs (λ c hit p q. keep c (p (rw (same c) at q))) h

consume-IsSpent :
    (cid : Uuid) (now : Time) (cs : List OtpChallenge)
    → IsSpent cid (update_rows (λ (c : OtpChallenge). c.id == cid) (λ r. consume now (burn r)) cs)
consume-IsSpent cid now cs =
    All-update_new _ _ _ cs (λ c hit q. refl) (λ c miss q. absurd (cc (miss, q)))

supersede-IsSpent :
    (cid : Uuid) (fp : Digest) (now : Time) (cs : List OtpChallenge)
    → IsSpent cid cs
    → IsSpent cid (supersede fp now cs)
unfolding supersede
supersede-IsSpent cid fp now cs h = All-update _ _ _ cs (λ c hit p q. refl) h

-- Requests to the two operations, with time passing between them.
pub data Call : Type 0 where
  issue : Text → Option Address → Option Text → (challenge_id drawn : ℕ) → Bool → Call
  verify : Text → Text → Text → Option Address → Call
  wait : Time → Call

abbrev pub is_ok : Result (OtpResult × Bool) → Bool
is_ok (Errors.ok (OtpResult.ok, b)) = true
is_ok (Errors.ok (OtpResult.invalid, b)) = false
is_ok (Errors.ok (OtpResult.expired, b)) = false
is_ok (Errors.ok (OtpResult.exhausted, b)) = false
is_ok (Errors.err e) = false

-- No later issue draws the uuid of the challenge again.
abbrev pub Fresh : Uuid → List Call → Type 0
Fresh cid [] = Unit
Fresh cid (issue phone ip agent i drawn delivered ∷ cs) = ((i == cid) ≡ false) × Fresh cid cs
Fresh cid (verify cid_text code phone ip ∷ cs) = Fresh cid cs
Fresh cid (wait t ∷ cs) = Fresh cid cs

Fresh-tail : (cid : Uuid) (c : Call) (cs : List Call) → Fresh cid (c ∷ cs) → Fresh cid cs
Fresh-tail cid (issue phone ip agent i drawn delivered) cs f = f.1
Fresh-tail cid (verify cid_text code phone ip) cs f = f
Fresh-tail cid (wait t) cs f = f

and_parts : (i j : Uuid) (b : Bool) → (i == j && b) ≡ true → (i ≡ j) × (b ≡ true)
and_parts i j b h = ground arith

module _ (os : Platform) (cfg : Settings) where
  -- What one verification does to a spent challenge: it stays spent, and no code is accepted for it.
  Verified-IsSpent :
      (cid : Uuid) (cid_text code phone : Text) (w : World) (x : Result (OtpResult × Bool) × World)
      → w.saved ≡ w.db
      → Verified os cfg cid_text code phone w x
      → IsSpent cid w.db.challenges
      → IsSpent cid x.1.saved.challenges
  Verified-IsSpent cid cid_text code phone w x clean v h = elim v [
    | stopped n r s d ↦ rw (s, clean) h
    | unknown gone r s d ↦ rw (s, clean) h
    | judged found c u p e d s t verdict ↦ elim verdict [
      | accepted a r e' ↦
          rw (e', d) (update-IsSpent cid c.id _ w.db.challenges (λ y. refl) (λ y z. refl) h)
      | used_up a r e' ↦
          rw (e', d) (update-IsSpent cid c.id _ w.db.challenges (λ y. refl) (λ y z. refl) h)
      | refused a r e' ↦
          rw (e', d) (update-IsSpent cid c.id _ w.db.challenges (λ y. refl) (λ y z. z) h)
    ]
  ]

  -- A verification that is accepted leaves its challenge spent.
  accept-IsSpent :
      (cid : Uuid) (cid_text code phone : Text) (w : World) (x : Result (OtpResult × Bool) × World)
      (b : Bool)
      → os.parse_uuid cid_text ≡ some cid
      → x.0 ≡ Errors.ok (ok, b)
      → Verified os cfg cid_text code phone w x
      → IsSpent cid x.1.saved.challenges
  accept-IsSpent cid cid_text code phone w x b p won v = elim v [
    | stopped n r s d ↦ absurd (cc (r, won))
    | unknown gone r s d ↦ absurd (cc (r, won))
    | judged found c u q e d s t verdict ↦ elim verdict [
      | accepted a r e' ↦
          let same : c.id ≡ cid = ground (
            arith,
            p,
            q,
            select_one-holds (is_challenge found (phone_fingerprint os phone)) w.db.challenges e,
          ) in
          rw (e', same) (consume-IsSpent cid u.now u.db.challenges)
      | used_up a r e' ↦ absurd (cc (r, won))
      | refused a r e' ↦ elim r [ inl z ↦ absurd (cc (z, won)) | inr z ↦ absurd (cc (z, won)) ]
    ]
  ]

  -- No code is accepted for a spent challenge.
  spent_refused :
      (cid : Uuid) (cid_text code phone : Text) (w : World) (x : Result (OtpResult × Bool) × World)
      (b : Bool)
      → os.parse_uuid cid_text ≡ some cid
      → IsSpent cid w.db.challenges
      → Verified os cfg cid_text code phone w x
      → x.0 ≢ Errors.ok (ok, b)
  spent_refused cid cid_text code phone w x b p h v won = elim v [
    | stopped n r s d ↦ absurd (cc (r, won))
    | unknown gone r s d ↦ absurd (cc (r, won))
    | judged found c u q e d s t verdict ↦ elim verdict [
      | accepted a r e' ↦
          let same : found ≡ cid = cc (p, q) in
          let spent : is_some c.consumed_at ≡ true =
            spent_row cid _ w.db.challenges c h (rw same at e) in
          absurd (cc (a.0, spent))
      | used_up a r e' ↦ absurd (cc (r, won))
      | refused a r e' ↦ elim r [ inl z ↦ absurd (cc (z, won)) | inr z ↦ absurd (cc (z, won)) ]
    ]
  ]

  -- An issue under another uuid leaves a spent challenge spent.
  Issued-IsSpent :
      (cid : Uuid) (phone : Text) (ip : Option Address) (agent : Option Text) (other drawn : ℕ)
      (w : World) (x : Result Challenge × World)
      → (other == cid) ≡ false
      → w.saved ≡ w.db
      → Issued os cfg phone ip agent other drawn w x
      → IsSpent cid w.db.challenges
      → IsSpent cid x.1.saved.challenges
  unfolding new_challenge
  Issued-IsSpent cid phone ip agent other drawn w x ne clean v h = elim v [
    | Issued.stopped n r s d ↦ rw (s, clean) h
    | issued r e ↦ rw e (
        All-append _ (supersede (phone_fingerprint os phone) w.now w.db.challenges) _
          (supersede-IsSpent cid (phone_fingerprint os phone) w.now w.db.challenges h)
          ((λ q. absurd (cc (q, ne))), tt))
  ]

  unfoldable pub step : Call → World → World
  unfolding request
  step (issue phone ip agent cid drawn delivered) w =
      (request (issue_challenge os cfg phone ip agent cid drawn delivered) w).1
  step (verify cid_text code phone ip) w =
      (request (verify_challenge os cfg cid_text code phone ip) w).1
  step (wait t) w = record w { now = w.now + t }

  -- Does this call accept a code for the challenge `cid`?
  unfoldable pub wins : Uuid → Call → World → Bool
  wins cid (issue phone ip agent i drawn delivered) w = false
  wins cid (wait t) w = false
  wins cid (verify cid_text code phone ip) w = elim (os.parse_uuid cid_text) [
    | none ↦ false
    | some i ↦ i == cid && is_ok (verify_challenge os cfg cid_text code phone ip w).0
  ]

  unfoldable pub count_wins : Uuid → List Call → World → ℕ
  count_wins cid [] w = 0
  count_wins cid (c ∷ cs) w = (if wins cid c w then 1 else 0) + count_wins cid cs (step c w)

  step-clean : (c : Call) (w : World) → w.saved ≡ w.db → (step c w).saved ≡ (step c w).db
  unfolding step
  step-clean (issue phone ip agent i drawn delivered) w h = refl
  step-clean (verify cid_text code phone ip) w h = refl
  step-clean (wait t) w h = h

  step-IsSpent :
      (cid : Uuid) (c : Call) (cs : List Call) (w : World)
      → Fresh cid (c ∷ cs)
      → w.saved ≡ w.db
      → IsSpent cid w.db.challenges
      → IsSpent cid (step c w).db.challenges
  unfolding step
  step-IsSpent cid (issue phone ip agent i drawn delivered) cs w f clean h =
      Issued-IsSpent cid phone ip agent i drawn w _ f.0 clean
        (issue_challenge-Issued os cfg phone ip agent i drawn delivered w) h
  step-IsSpent cid (verify t code phone ip) cs w f clean h =
      Verified-IsSpent cid t code phone w _ clean
        (verify_challenge-Verified os cfg t code phone ip w) h
  step-IsSpent cid (wait t) cs w f clean h = h

  is_ok-inv :
      (r : Result (OtpResult × Bool)) → is_ok r ≡ true → (b : Bool) × (r ≡ Errors.ok (ok, b))
  is_ok-inv (Errors.ok (OtpResult.ok, b)) e = (b, refl)
  is_ok-inv (Errors.ok (OtpResult.invalid, b)) e = absurd (cc)
  is_ok-inv (Errors.ok (OtpResult.expired, b)) e = absurd (cc)
  is_ok-inv (Errors.ok (OtpResult.exhausted, b)) e = absurd (cc)
  is_ok-inv (Errors.err x) e = absurd (cc)

  wins_lem :
      (cid i : Uuid) (t code phone : Text) (ip : Option Address) (w : World)
      → os.parse_uuid t ≡ some i
      → wins cid (verify t code phone ip) w
        ≡ (i == cid && is_ok (verify_challenge os cfg t code phone ip w).0)
  unfolding wins
  wins_lem cid i t code phone ip w e = rw (e, wins) refl

  no_uuid-wins :
      (cid : Uuid) (t code phone : Text) (ip : Option Address) (w : World)
      → os.parse_uuid t ≡ none
      → wins cid (verify t code phone ip) w ≡ false
  unfolding wins
  no_uuid-wins cid t code phone ip w e = rw (e, wins) refl

  -- What a winning call is.
  wins-inv :
      (cid : Uuid) (t code phone : Text) (ip : Option Address) (w : World)
      → wins cid (verify t code phone ip) w ≡ true
      → (os.parse_uuid t ≡ some cid)
        × ((b : Bool) × ((verify_challenge os cfg t code phone ip w).0 ≡ Errors.ok (ok, b)))
  wins-inv cid t code phone ip w h = elim (Option-cases (os.parse_uuid t)) [
    | inl no_uuid ↦ absurd (cc (h, no_uuid-wins cid t code phone ip w no_uuid))
    | inr (i, e) ↦
        let parts : (i ≡ cid) × (is_ok (verify_challenge os cfg t code phone ip w).0 ≡ true) =
          and_parts i cid (is_ok (verify_challenge os cfg t code phone ip w).0)
            (sym (wins_lem cid i t code phone ip w e) ∙ h) in
        (e ∙ ap some parts.0, is_ok-inv _ parts.1)
  ]

  -- A spent challenge never wins again.
  spent-count_wins :
      (cid : Uuid) (cs : List Call) (w : World)
      → Fresh cid cs
      → w.saved ≡ w.db
      → IsSpent cid w.db.challenges
      → count_wins cid cs w ≡ 0
  unfolding count_wins wins
  spent-count_wins cid [] w f clean h = refl
  spent-count_wins cid (c ∷ cs) w f clean h = elim (Bool-cases (wins cid c w)) [
    | inl won ↦ absurd (no_win c f won)
    | inr lost ↦ rw lost (
        omega (
          arith,
          spent-count_wins cid cs (step c w) (Fresh-tail cid c cs f) (step-clean c w clean)
              (step-IsSpent cid c cs w f clean h),
        ))
  ]
    where
      no_win : (c : Call) → Fresh cid (c ∷ cs) → wins cid c w ≡ true → ⊥
      no_win (verify t code phone ip) f won =
          let (p, (b, r)) = wins-inv cid t code phone ip w won in
          spent_refused cid t code phone w _ b p h
            (verify_challenge-Verified os cfg t code phone ip w) r
      no_win (issue phone ip agent i drawn delivered) f won = cc
      no_win (wait t) f won = cc

  win-IsSpent :
      (cid : Uuid) (c : Call) (w : World)
      → wins cid c w ≡ true
      → IsSpent cid (step c w).db.challenges
  unfolding wins step
  win-IsSpent cid (verify t code phone ip) w won =
      let (p, (b, r)) = wins-inv cid t code phone ip w won in
      accept-IsSpent cid t code phone w _ b p r (verify_challenge-Verified os cfg t code phone ip w)
  win-IsSpent cid (issue phone ip agent i drawn delivered) w won = absurd (cc)
  win-IsSpent cid (wait t) w won = absurd (cc)

  -- Over any history of issues, verifications and waits, begun between two transactions, in which no
  -- uuid is drawn twice, a challenge lets at most one caller through.
  pub one_win :
      (cid : Uuid) (cs : List Call) (w : World)
      → Fresh cid cs
      → w.saved ≡ w.db
      → count_wins cid cs w ≤ 1
  unfolding count_wins wins
  one_win cid [] w f clean = omega arith
  one_win cid (c ∷ cs) w f clean = elim (Bool-cases (wins cid c w)) [
    | inr lost ↦
        rw lost
          (omega (arith, one_win cid cs (step c w) (Fresh-tail cid c cs f) (step-clean c w clean)))
    | inl won ↦ rw won (
        omega (
          arith,
          spent-count_wins cid cs (step c w) (Fresh-tail cid c cs f) (step-clean c w clean)
              (win-IsSpent cid c w won),
        ))
  ]

  -- Whatever a verification answers, no security event that it records is kept: each is written
  -- after the last commit, and is dropped when the request ends.
  security_events_lost :
      (cid_text code phone : Text) (ip : Option Address) (w : World)
      → w.saved ≡ w.db
      → (request (verify_challenge os cfg cid_text code phone ip) w).1.db.security_events
        ≡ w.db.security_events
  unfolding request
  security_events_lost cid_text code phone ip w clean =
      elim (verify_challenge-Verified os cfg cid_text code phone ip w) [
        | stopped n r s d ↦ rw (s, clean) refl
        | unknown gone r s d ↦ rw (s, clean) refl
        | judged found c u p e d s t verdict ↦ elim verdict [
          | accepted a r e' ↦ rw (e', d) refl
          | used_up a r e' ↦ rw (e', d) refl
          | refused a r e' ↦ rw (e', d) refl
        ]
      ]
