-- ===== src/Otp/Issue.antt =====
-- `issue_challenge` of services/otp.py: what it commits, and that one code at most is live.
use runnerup_chat.Base.{
  ℕ, ◌+◌, ◌≡◌, refl, ◌⊎◌, inl, inr, Bool, Option, none, some, List, [], ◌∷◌, ◌++◌, arith, ◌==◌,
  ==_refl, ◌&&◌, count_rows, count_rows-append, update_rows,
}
use runnerup_chat.Errors.{Result, ok, err, rate_limited, runtime_error}
use runnerup_chat.Config.{Settings, seconds}
use runnerup_chat.Security.{Platform, phone_fingerprint}
use runnerup_chat.Models.Accounts.{Digest, Time, Text, Address, OtpChallenge}
use runnerup_chat.World.{World, LimitName, Identity, commit, gets, pure, ◌>>=◌, ◌>>◌}
use runnerup_chat.Ratelimit.Enforce.{passed, limited, enforce-Enforced}
use runnerup_chat.Otp.{
  Challenge, is_outstanding, supersede, enforce_address, new_challenge, replace_challenge, send_sms,
  issue_challenge,
}

-- No challenge of a number stands once they are superseded.
count-supersede :
    (fp : Digest) (now : Time) (cs : List OtpChallenge)
    → count_rows (is_outstanding fp) (supersede fp now cs) ≡ 0
unfolding supersede update_rows count_rows
count-supersede fp now [] = refl
count-supersede fp now (c ∷ cs) = ground (arith, count-supersede fp now cs)

count-narrower :
    (p q : OtpChallenge → Bool) (cs : List OtpChallenge)
    → count_rows p cs ≡ 0
    → count_rows (λ c. p c && q c) cs ≡ 0
unfolding count_rows
count-narrower p q [] h = refl
count-narrower p q (c ∷ cs) h = ground (arith, count-narrower p q cs)

module _ (os : Platform) (cfg : Settings) where
  -- How an issue ends: a limit stops it and nothing changes, or the old challenges of the number are
  -- consumed and the new one added, and that is committed, whether or not the message goes out.
  pub data Issued (phone : Text) (ip : Option Address) (agent : Option Text) (cid drawn : ℕ)
      (w : World) (x : Result Challenge × World) : Type 0 where
    stopped :
        (seconds : ℕ)
        → x.0 ≡ err (rate_limited seconds)
        → x.1.saved ≡ w.saved
        → x.1.db ≡ w.db
        → Issued phone ip agent cid drawn w x
    issued :
        ((c : Challenge) × (x.0 ≡ ok c)) ⊎ (x.0 ≡ err runtime_error)
        → x.1.saved ≡ record w.db {
          challenges =
              supersede (phone_fingerprint os phone) w.now w.db.challenges
              ++ new_challenge os cfg (phone_fingerprint os phone) ip agent cid drawn w.now ∷ [];
        }
        → Issued phone ip agent cid drawn w x

  module _ (phone : Text) (ip : Option Address) (agent : Option Text) (cid drawn : ℕ)
      (delivered : Bool) (w : World) where
    replaced :
        (v : World)
        → v.db ≡ w.db
        → v.now ≡ w.now
        → (replace_challenge os cfg (phone_fingerprint os phone) ip agent cid drawn v).1.saved
          ≡ record w.db {
            challenges =
                supersede (phone_fingerprint os phone) w.now w.db.challenges
                ++ new_challenge os cfg (phone_fingerprint os phone) ip agent cid drawn w.now ∷ [];
          }
    unfolding replace_challenge commit
    replaced v d t = rw (d, t) refl

    sms_cases :
        (v : World)
        → (send_sms cfg delivered v ≡ (ok tt, v))
          ⊎ (send_sms cfg delivered v ≡ (err runtime_error, v))
    unfolding send_sms
    sms_cases v = ground arith

    -- What is left of the call once the limits have let it pass.
    rest_part :
        (v : World)
        → v.db ≡ w.db
        → v.now ≡ w.now
        → Issued phone ip agent cid drawn w (
            (do
              replace_challenge os cfg (phone_fingerprint os phone) ip agent cid drawn
              send_sms cfg delivered
              now ← gets (λ w. w.now)
              pure (record { challenge_id = cid; expires_at = now + seconds cfg.otp_ttl_seconds }))
              v)
    unfolding replace_challenge commit
    rest_part v d t =
        elim (sms_cases
          (replace_challenge os cfg (phone_fingerprint os phone) ip agent cid drawn v).1) [
            | inl sent ↦ rw sent (issued (inl (_, refl)) (replaced v d t))
            | inr lost ↦ rw lost (issued (inr refl) (replaced v d t))
          ]

    address_part :
        (a : Option Address) (v : World)
        → v.db ≡ w.db
        → v.saved ≡ w.saved
        → v.now ≡ w.now
        → Issued phone ip agent cid drawn w (
            (do
              enforce_address LimitName.otp_request_ip a
              replace_challenge os cfg (phone_fingerprint os phone) ip agent cid drawn
              send_sms cfg delivered
              now ← gets (λ w. w.now)
              pure (record { challenge_id = cid; expires_at = now + seconds cfg.otp_ttl_seconds }))
              v)
    address_part none v d s t = rest_part v d t
    address_part (some a) v d s t =
        elim (enforce-Enforced LimitName.otp_request_ip (Identity.known a) v) [
          | passed bs e ↦ rw (e, ◌>>=◌) (rest_part (record v { buckets = bs }) d t)
          | limited bs n pos e ↦ rw (e, ◌>>=◌) (stopped n refl s d)
        ]

    pub issue_challenge-Issued :
        Issued phone ip agent cid drawn w
          (issue_challenge os cfg phone ip agent cid drawn delivered w)
    unfolding issue_challenge
    issue_challenge-Issued =
        elim (enforce-Enforced LimitName.otp_request_phone
          (Identity.known (phone_fingerprint os phone)) w) [
            | passed bs e ↦
                rw (e, issue_challenge) (address_part ip (record w { buckets = bs }) refl refl refl)
            | limited bs n pos e ↦ rw (e, issue_challenge) (stopped n refl refl refl)
          ]

  new_outstanding :
      (fp : Digest) (ip : Option Address) (agent : Option Text) (cid drawn : ℕ) (now : Time)
      → let new = new_challenge os cfg fp ip agent cid drawn now ∷ [] in
        (count_rows (is_outstanding fp) new ≡ 1)
        × (count_rows (λ c. is_outstanding fp c && c.id == cid) new ≡ 1)
  unfolding count_rows new_challenge
  new_outstanding fp ip agent cid drawn now = ground (arith, ==_refl fp, ==_refl cid)

  -- After an issue that was not stopped by a limit exactly one challenge of the number stands, and it
  -- is the new one: every code that was sent before is dead, also if the new message is lost.
  pub one_code_live :
      (phone : Text) (ip : Option Address) (agent : Option Text) (cid drawn : ℕ) (delivered : Bool)
      (w : World)
      → ((n : ℕ)
          → (issue_challenge os cfg phone ip agent cid drawn delivered w).0 ≡ err (rate_limited n)
          → ⊥)
      → let saved = (issue_challenge os cfg phone ip agent cid drawn delivered w).1.saved in
        (count_rows (is_outstanding (phone_fingerprint os phone)) saved.challenges ≡ 1)
        × (count_rows
              (λ c. is_outstanding (phone_fingerprint os phone) c && c.id == cid)
              saved.challenges
            ≡ 1)
  one_code_live phone ip agent cid drawn delivered w go =
      elim (issue_challenge-Issued phone ip agent cid drawn delivered w) [
        | stopped n r s d ↦ absurd (go n r)
        | issued r e ↦
            let fp = phone_fingerprint os phone in
            let old = supersede fp w.now w.db.challenges in
            let new = new_challenge os cfg fp ip agent cid drawn w.now ∷ [] in
            let counted = new_outstanding fp ip agent cid drawn w.now in
            let none_old = count-supersede fp w.now w.db.challenges in
            rw e (
              omega (arith, count_rows-append (is_outstanding fp) old new),
              omega (
                arith,
                count_rows-append (λ c. is_outstanding fp c && c.id == cid) old new,
                count-narrower (is_outstanding fp) (λ c. c.id == cid) old none_old,
              ),
            )
      ]
