-- ===== src/Ratelimit/Window.antt =====
-- The sliding window of core/ratelimit.py over a run of calls on one bucket: what it guarantees to
-- calls at different milliseconds, and what it does to calls within one.
use runnerup_chat.Base.{
  ℕ, zero, suc, ◌+◌, ◌≤◌, ◌<◌, ◌≡◌, refl, ap, inl, inr, true, false, List, [], ◌∷◌, ◌++◌, arith,
  ltb, leb, if◌then◌else◌, length, replicate, All, All-append, All-map, count_rows-append,
  select_all, count_rows, Bool-cases, Option-cases,
}
use runnerup_chat.Errors.{ok, err}
use runnerup_chat.World.{Entry, Slot}
use runnerup_chat.Ratelimit.{prune, zadd, oldest, live, sliding_window, empty_slot}

-- The calls of `hs` (or the entries of `es`) whose window of length `W` still covers the moment `c`.
pub recent : ℕ → ℕ → List ℕ → ℕ
recent W c = count_rows (λ a. ltb c (a + W))

active : ℕ → ℕ → List Entry → ℕ
active W c = count_rows (λ e. ltb c (e.score + W))

-- One call at the millisecond `t`; an accepted call is added to the history.
unfoldable pub call : (W L t : ℕ) → Slot × List ℕ → Slot × List ℕ
unfolding sliding_window
call W L t (s, hs) =
    let (r, s') = sliding_window t W L 0 s in
    (s', elim r [ ok reply ↦ (if reply.allowed then t ∷ hs else hs) | err e ↦ hs ])

unfoldable pub run_calls : (W L : ℕ) → List ℕ → Slot × List ℕ → Slot × List ℕ
unfolding call
run_calls W L [] x = x
run_calls W L (t ∷ ts) x = run_calls W L ts (call W L t x)

-- The moments rise strictly, from `b` on.
abbrev pub Rising : ℕ → List ℕ → Type 0
Rising b [] = Unit
Rising b (t ∷ ts) = (b ≤ t) × Rising (suc t) ts

recent_mono : (W c d : ℕ) (hs : List ℕ) → c ≤ d → recent W d hs ≤ recent W c hs
unfolding recent count_rows
recent_mono W c d [] h = omega arith
recent_mono W c d (a ∷ hs) h = ground (arith, recent_mono W c d hs h)

active-prune : (W t c : ℕ) (es : List Entry) → t ≤ c → active W c (prune t W es) ≡ active W c es
unfolding active prune count_rows select_all
active-prune W t c [] h = refl
active-prune W t c (e ∷ es) h = ground (arith, active-prune W t c es h)

length-prune : (W t : ℕ) (es : List Entry) → length (prune t W es) ≡ active W t es
unfolding active prune count_rows select_all
length-prune W t [] = refl
length-prune W t (e ∷ es) = ground (arith, length-prune W t es)

-- Entries that end by `x` are no longer active from `x` on.
active_over :
    (W x c : ℕ) (es : List Entry) → All (λ e. e.score + W ≤ x) es → x ≤ c → active W c es ≡ 0
unfolding active count_rows
active_over W x c [] h k = refl
active_over W x c (e ∷ es) h k = ground (arith, active_over W x c es h.1 k)

All-prune {κ} : (P : Entry → Type κ) (W t : ℕ) (es : List Entry) → All P es → All P (prune t W es)
unfolding prune select_all
All-prune P W t [] h = tt
All-prune P W t (e ∷ es) h = elim (Bool-cases (ltb t (e.score + W))) [
  | inl hit ↦ rw hit (h.0, All-prune P W t es h.1)
  | inr miss ↦ rw miss (All-prune P W t es h.1)
]

-- A member stamped later than all others is new.
zadd_new :
    (e : Entry) (es : List Entry) → All (λ x. x.stamp < e.stamp) es → zadd e es ≡ es ++ e ∷ []
unfolding zadd
zadd_new e [] h = refl
zadd_new e (x ∷ es) h = ground (arith, zadd_new e es h.1)

-- The state between two calls, at moments from `b` on: the set and the history count alike, its
-- entries are over when the key expires, and no window holds more than `L`.
record Inv (W L b : ℕ) (s : Slot) (hs : List ℕ) : Type 0 where
  counts : (c : ℕ) → b ≤ suc c → active W c s.entries ≡ recent W c hs
  ends : All (λ e. e.score + W ≤ s.expires_at) s.entries
  stamps : All (λ e. e.stamp < b) s.entries
  ends_by : s.expires_at ≤ b + W
  within : (c : ℕ) → b ≤ suc c → recent W c hs ≤ L

active-live :
    (W t c : ℕ) (s : Slot)
    → All (λ e. e.score + W ≤ s.expires_at) s.entries
    → t ≤ c
    → active W c (live t s) ≡ active W c s.entries
unfolding live active count_rows
active-live W t c s h k = ground (arith, active_over W s.expires_at c s.entries h)

All-live {κ} : (P : Entry → Type κ) (t : ℕ) (s : Slot) → All P s.entries → All P (live t s)
unfolding live
All-live P t s h = elim (Bool-cases (leb s.expires_at t)) [
  | inl over ↦ rw over tt
  | inr on ↦ rw on h
]

-- What the script keeps of a set counts like the set, from the call on.
module _ (W L b t : ℕ) (s : Slot) (hs : List ℕ) (v : Inv W L b s hs) (later : b ≤ t) where
  abbrev kept : List Entry
  kept = prune t W (live t s)

  active-kept : (c : ℕ) → t ≤ c → active W c kept ≡ recent W c hs
  active-kept c h = omega (
    arith,
    active-prune W t c (live t s) h,
    active-live W t c s v.ends h,
    v.counts c (omega arith),
  )

  length-kept : length kept ≡ recent W t hs
  length-kept = omega (
    arith,
    length-prune W t (live t s),
    active-live W t t s v.ends (omega arith),
    v.counts t (omega arith),
  )

  All-kept {κ} : (P : Entry → Type κ) → All P s.entries → All P kept
  All-kept P h = All-prune P W t (live t s) (All-live P t s h)

  denied-Inv : Inv W L (suc t) (record s { entries = kept }) hs
  denied-Inv = record {
    counts = λ c h. active-kept c (omega arith);
    ends = All-kept _ v.ends;
    stamps = All-map _ _ kept (λ e h. omega arith) (All-kept _ v.stamps);
    ends_by = omega (arith, v.ends_by);
    within = λ c h. v.within c (omega arith);
  }

  abbrev new_entry : Entry
  new_entry = record { stamp = t; index = 0; score = t }

  zadd-kept : zadd new_entry kept ≡ kept ++ new_entry ∷ []
  zadd-kept = zadd_new _ kept (All-map _ _ kept (λ e h. omega arith) (All-kept _ v.stamps))

  accepted-Inv :
      recent W t hs < L
      → Inv W L (suc t) (record { entries = zadd new_entry kept; expires_at = t + W }) (t ∷ hs)
  unfolding recent active count_rows
  accepted-Inv room = rw zadd-kept (record {
    counts = λ c h. omega (
      arith,
      count_rows-append (λ e. ltb c (e.score + W)) kept (new_entry ∷ []),
      active-kept c (omega arith),
    );
    ends =
        All-append _ kept _ (All-map _ _ kept (λ e h. omega (arith, v.ends_by)) (All-kept _ v.ends))
          (omega arith, tt);
    stamps =
        All-append _ kept _ (All-map _ _ kept (λ e h. omega arith) (All-kept _ v.stamps))
          (omega arith, tt);
    ends_by = omega arith;
    within = λ c h. ground (arith, recent_mono W t c hs);
  })

  call_full : leb L (length kept) ≡ true → call W L t (s, hs) ≡ (record s { entries = kept }, hs)
  unfolding call
  call_full full = elim (Option-cases (oldest kept)) [
    | inl empty ↦ rw (full, empty, call) refl
    | inr (first, e) ↦ rw (full, e, call) refl
  ]

  call_free :
      leb L (length kept) ≡ false
      → call W L t (s, hs) ≡ (record { entries = zadd new_entry kept; expires_at = t + W }, t ∷ hs)
  unfolding call
  call_free room = rw (room, call) refl

  -- One call keeps the invariant.
  call-Inv : let (s', hs') = call W L t (s, hs) in Inv W L (suc t) s' hs'
  call-Inv = elim (Bool-cases (leb L (length kept))) [
    | inl full ↦ rw (call_full full) denied-Inv
    | inr room ↦ rw (call_free room) (accepted-Inv (ground (arith, length-kept)))
  ]

-- The end of a run that began at `b`: the first moment at which another call may come.
abbrev pub after : ℕ → List ℕ → ℕ
after b [] = b
after b (t ∷ ts) = after (suc t) ts

run_calls-Inv :
    (W L b : ℕ) (ts : List ℕ) (s : Slot) (hs : List ℕ)
    → Inv W L b s hs
    → Rising b ts
    → let (s', hs') = run_calls W L ts (s, hs) in Inv W L (after b ts) s' hs'
unfolding run_calls
run_calls-Inv W L b [] s hs v r = v
run_calls-Inv W L b (t ∷ ts) s hs v r =
    let (s', hs') = call W L t (s, hs) in
    run_calls-Inv W L (suc t) ts s' hs' (call-Inv W L b t s hs v r.0) r.1

-- However the calls of a client fall, if they come at different milliseconds then no window of `W`
-- milliseconds that ends at or after the last of them holds more than `L` accepted calls. (Of a
-- window that ends earlier the same is said by the run up to there.)
pub window_bound :
    (W L : ℕ) (ts : List ℕ) (c : ℕ)
    → Rising 0 ts
    → after 0 ts ≤ suc c
    → recent W c (run_calls W L ts (empty_slot, [])).1 ≤ L
unfolding recent active count_rows
window_bound W L ts c r h =
    (run_calls-Inv W L 0 ts empty_slot []
        (record {
          counts = λ c h. refl;
          ends = tt;
          stamps = tt;
          ends_by = omega arith;
          within = λ c h. omega arith;
        })
        r).within
      c h

-- Calls of one millisecond have one name in the sorted set, so only the first of them is counted:
-- under any budget of two or more, every one of them is accepted, however many there are.
one_entry : ℕ → ℕ → Slot
one_entry W t = record {
  entries = record { stamp = t; index = 0; score = t } ∷ [];
  expires_at = t + W;
}

same_call :
    (W L t : ℕ) (hs : List ℕ)
    → 0 < W
    → 2 ≤ L
    → call W L t (one_entry W t, hs) ≡ (one_entry W t, t ∷ hs)
unfolding call one_entry prune live select_all zadd
same_call W L t hs pos two = ground arith

same_calls :
    (W L t n : ℕ) (hs : List ℕ)
    → 0 < W
    → 2 ≤ L
    → length (run_calls W L (replicate n t) (one_entry W t, hs)).1 ≡ n + length hs
unfolding run_calls
same_calls W L t zero hs pos two = omega arith
same_calls W L t (suc n) hs pos two = omega (
  arith,
  ap (λ x. length (run_calls W L (replicate n t) x).1) (same_call W L t hs pos two),
  same_calls W L t n (t ∷ hs) pos two,
)

first_call : (W L t : ℕ) → 2 ≤ L → call W L t (empty_slot, []) ≡ (one_entry W t, t ∷ [])
unfolding call one_entry prune live select_all zadd
first_call W L t two = ground arith

-- Calls within one millisecond are not limited: of `n` calls in the same millisecond, however many,
-- all are accepted, under any limit of two or more, because each gives the set the same member.
same_millisecond_unlimited :
    (W L t n : ℕ) → 0 < W → 2 ≤ L → length (run_calls W L (replicate n t) (empty_slot, [])).1 ≡ n
unfolding run_calls
same_millisecond_unlimited W L t zero pos two = refl
same_millisecond_unlimited W L t (suc n) pos two = omega (
  arith,
  ap (λ x. length (run_calls W L (replicate n t) x).1) (first_call W L t two),
  same_calls W L t n (t ∷ []) pos two,
)
