-- ===== src/Ratelimit/Enforce.antt =====
-- `enforce` of core/ratelimit.py as its callers see it: it lets them pass or raises `RateLimited`,
-- and of the state it changes the buckets alone.
use runnerup_chat.Base.{
  ℕ, ◌/◌, ◌*◌, max, ◌≤◌, ◌<◌, ◌≡◌, refl, inl, inr, some, List, [], ◌∷◌, arith, leb, length,
  Bool-cases, Option-cases,
}
use runnerup_chat.Errors.{Result, ok, err, rate_limited}
use runnerup_chat.World.{LimitName, Identity, Entry, Slot, Bucket, World}
use runnerup_chat.Ratelimit.{
  Reply, limits, oldest, prune, live, sliding_window, find_slot, put_slot, eval_window,
  check_rounds, check, enforce,
}

oldest-some : (es : List Entry) → 0 < length es → (s : ℕ) × (oldest es ≡ some s)
unfolding oldest
oldest-some [] h = elim h [ ]
oldest-some (e ∷ es) h = elim (Option-cases (oldest es)) [
  | inl last ↦ rw (last, oldest) (_, refl)
  | inr (s, more) ↦ rw (more, oldest) (_, refl)
]

limits_pos : (n : LimitName) → 0 < (limits n).limit
unfolding limits
limits_pos n = ground arith

-- The script always answers under a positive limit.
sliding_window_answers :
    (now window limit index : ℕ) (s : Slot)
    → 0 < limit
    → (r : Reply) × (s' : Slot) × (sliding_window now window limit index s ≡ (ok r, s'))
unfolding sliding_window
sliding_window_answers now window limit index s pos =
    elim (Bool-cases (leb limit (length (prune now window (live now s))))) [
      | inr room ↦ rw (room, sliding_window) (_, _, refl)
      | inl full ↦
          let (first, e) = oldest-some (prune now window (live now s)) (ground arith) in
          rw (full, e, sliding_window) (_, _, refl)
    ]

pub data Enforced (w : World) (x : Result (Unit {0}) × World) : Type 0 where
  passed : (bs : List Bucket) → x ≡ (ok tt, record w { buckets = bs }) → Enforced w x
  limited :
      (bs : List Bucket) (seconds : ℕ)
      → 1 ≤ seconds
      → x ≡ (err (rate_limited seconds), record w { buckets = bs })
      → Enforced w x

eval_window_answers :
    (n : LimitName) (who : Identity) (i : ℕ) (w : World)
    → (r : Reply) × (bs : List Bucket) × (eval_window n who i w ≡ (ok r, record w { buckets = bs }))
unfolding eval_window
eval_window_answers n who i w =
    let (r, s, e) =
      sliding_window_answers (w.now / 1000) ((limits n).window_seconds * 1000) (limits n).limit i
        (find_slot n who w.buckets) (limits_pos n) in
    (r, put_slot n who s w.buckets, rw (e, eval_window) refl)

-- `enforce` either returns, or raises `RateLimited` with a wait of a second or more; no call of it
-- fails in another way, and nothing but the buckets changes.
pub enforce-Enforced : (n : LimitName) (who : Identity) (w : World) → Enforced w (enforce n who w)
unfolding enforce check check_rounds
enforce-Enforced n who w =
    let (r, bs, e) = eval_window_answers n who 0 w in
    elim (Bool-cases r.allowed) [
      | inl free ↦ passed bs (ground arith)
      | inr full ↦ limited bs (max 1 (r.retry / 1000)) (omega arith) (ground arith)
    ]
