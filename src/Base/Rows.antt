-- ===== src/Base/Rows.antt =====
-- Tables as lists of rows: what the statements `SELECT`, `UPDATE` and `DELETE` of the services do
-- to a list, and the laws that relate them. A new row is appended.
use Prim.Native.Nat.{ℕ, suc, ◌+◌, ◌≤◌}
use mathlib.Core.Path.{◌≡◌, refl, ap}
use mathlib.Core.Logic.{inl, inr}
use mathlib.Core.Bool.{Bool, true, false}
use mathlib.Core.List.{List, [], ◌∷◌, ◌++◌}
use mathlib.Core.Option.{Option, none, some}
use mathlib.Core.Option
use native.Mathlib.Omega.{arith}
use runnerup_chat.Base.Tests.{if◌then◌else◌, Bool-cases, is_some}
use runnerup_chat.Base.Lists.{All, length}

module _ {ℓ} {A : Type ℓ} where
  -- The first row that fits, as `db.scalar(select(...).where(...))`.
  unfoldable pub select_one : (A → Bool) → List A → Option A
  select_one p [] = none
  select_one p (x ∷ xs) = if p x then some x else select_one p xs

  unfoldable pub select_all : (A → Bool) → List A → List A
  select_all p [] = []
  select_all p (x ∷ xs) = if p x then x ∷ select_all p xs else select_all p xs

  unfoldable pub update_rows : (A → Bool) → (A → A) → List A → List A
  update_rows p f [] = []
  update_rows p f (x ∷ xs) = (if p x then f x else x) ∷ update_rows p f xs

  unfoldable pub delete_rows : (A → Bool) → List A → List A
  delete_rows p [] = []
  delete_rows p (x ∷ xs) = if p x then delete_rows p xs else x ∷ delete_rows p xs

  unfoldable pub count_rows : (A → Bool) → List A → ℕ
  count_rows p [] = 0
  count_rows p (x ∷ xs) = (if p x then 1 else 0) + count_rows p xs

  pub select_one-holds :
      (p : A → Bool) (xs : List A) {x : A} → select_one p xs ≡ some x → p x ≡ true
  unfolding select_one
  select_one-holds p [] e = absurd (cc)
  select_one-holds p (y ∷ xs) {x} e = elim (Bool-cases (p y)) [
    | inl hit ↦ ground arith
    | inr miss ↦ select_one-holds p xs (rw miss at e)
  ]

  pub select_one-All {κ} :
      (P : A → Type κ) (p : A → Bool) (xs : List A) {x : A}
      → All P xs
      → select_one p xs ≡ some x
      → P x
  unfolding select_one
  select_one-All P p [] h e = absurd (cc)
  select_one-All P p (y ∷ xs) {x} h e = elim (Bool-cases (p y)) [
    | inl hit ↦ let same : y ≡ x = ground arith in rw same at h.0
    | inr miss ↦ select_one-All P p xs h.1 (rw miss at e)
  ]

  pub select_one-append :
      (p : A → Bool) (xs ys : List A)
      → select_one p (xs ++ ys)
        ≡ (if is_some (select_one p xs) then select_one p xs else select_one p ys)
  unfolding select_one
  select_one-append p [] ys = refl
  select_one-append p (x ∷ xs) ys = ground (arith, select_one-append p xs ys)

  pub All-update {κ} :
      (P : A → Type κ) (p : A → Bool) (f : A → A) (xs : List A)
      → ((x : A) → p x ≡ true → P x → P (f x))
      → All P xs
      → All P (update_rows p f xs)
  unfolding update_rows
  All-update P p f [] keep h = tt
  All-update P p f (x ∷ xs) keep h = elim (Bool-cases (p x)) [
    | inl hit ↦ rw hit (keep x hit h.0, All-update P p f xs keep h.1)
    | inr miss ↦ rw miss (h.0, All-update P p f xs keep h.1)
  ]

  -- An update that does not change which rows a query selects.
  pub select_one-update :
      (q p : A → Bool) (f : A → A) (xs : List A)
      → ((x : A) → q (f x) ≡ q x)
      → select_one q (update_rows p f xs)
        ≡ Option.map (λ x. if p x then f x else x) (select_one q xs)
  unfolding select_one update_rows
  select_one-update q p f [] keep = refl
  select_one-update q p f (x ∷ xs) keep = ground (arith, keep x, select_one-update q p f xs keep)

  pub count_rows-update :
      (q p : A → Bool) (f : A → A) (xs : List A)
      → ((x : A) → q (f x) ≡ q x)
      → count_rows q (update_rows p f xs) ≡ count_rows q xs
  unfolding count_rows update_rows
  count_rows-update q p f [] keep = refl
  count_rows-update q p f (x ∷ xs) keep = ground (arith, keep x, count_rows-update q p f xs keep)

  pub count_rows-append :
      (q : A → Bool) (xs ys : List A) → count_rows q (xs ++ ys) ≡ count_rows q xs + count_rows q ys
  unfolding count_rows
  count_rows-append q [] ys = omega arith
  count_rows-append q (x ∷ xs) ys = omega (arith, count_rows-append q xs ys)

  -- Two updates of the same rows are one.
  pub update_rows-update :
      (p : A → Bool) (f g : A → A) (xs : List A)
      → ((x : A) → p (f x) ≡ p x)
      → update_rows p g (update_rows p f xs) ≡ update_rows p (λ x. g (f x)) xs
  unfolding update_rows
  update_rows-update p f g [] keep = refl
  update_rows-update p f g (x ∷ xs) keep = ground (arith, keep x, update_rows-update p f g xs keep)

  -- What holds of the changed rows by the change and of the others by not being selected.
  pub All-update_new {κ} :
      (P : A → Type κ) (p : A → Bool) (f : A → A) (xs : List A)
      → ((x : A) → p x ≡ true → P (f x))
      → ((x : A) → p x ≡ false → P x)
      → All P (update_rows p f xs)
  unfolding update_rows
  All-update_new P p f [] hit miss = tt
  All-update_new P p f (x ∷ xs) hit miss = elim (Bool-cases (p x)) [
    | inl e ↦ rw e (hit x e, All-update_new P p f xs hit miss)
    | inr e ↦ rw e (miss x e, All-update_new P p f xs hit miss)
  ]

  -- Counting after an update that adds no row to the count, that takes one out, that takes all out.
  pub count_rows-update-le :
      (q p : A → Bool) (f : A → A) (xs : List A)
      → ((x : A) → q (f x) ≡ true → q x ≡ true)
      → count_rows q (update_rows p f xs) ≤ count_rows q xs
  unfolding count_rows update_rows
  count_rows-update-le q p f [] keep = omega arith
  count_rows-update-le q p f (x ∷ xs) keep =
      ground (arith, keep x, count_rows-update-le q p f xs keep)

  pub count_rows-update_out :
      (q p : A → Bool) (f : A → A) (xs : List A)
      → ((x : A) → p x ≡ true → q (f x) ≡ false)
      → ((x : A) → p x ≡ false → q x ≡ false)
      → count_rows q (update_rows p f xs) ≡ 0
  unfolding count_rows update_rows
  count_rows-update_out q p f [] hit miss = refl
  count_rows-update_out q p f (x ∷ xs) hit miss =
      ground (arith, hit x, miss x, count_rows-update_out q p f xs hit miss)

  pub count_rows-update_one :
      (q p r : A → Bool) (f : A → A) (xs : List A) {s : A}
      → ((x : A) → q (f x) ≡ false)
      → select_one r xs ≡ some s
      → p s ≡ true
      → q s ≡ true
      → suc (count_rows q (update_rows p f xs)) ≤ count_rows q xs
  unfolding count_rows update_rows select_one
  count_rows-update_one q p r f [] out e hit counted = absurd (cc)
  count_rows-update_one q p r f (x ∷ xs) {s} out e hit counted = elim (Bool-cases (r x)) [
    | inl here ↦
        let same : x ≡ s = ground arith in
        ground (
          arith,
          out x,
          ap p same,
          ap q same,
          count_rows-update-le q p f xs (λ y z. absurd (cc (z, out y))),
        )
    | inr later ↦
        ground (arith, out x, count_rows-update_one q p r f xs out (rw later at e) hit counted)
  ]

  -- What a query selects fits it, keeps what holds of every row, and is no longer than the table.
  pub select_all-holds : (p : A → Bool) (xs : List A) → All (λ x. p x ≡ true) (select_all p xs)
  unfolding select_all
  select_all-holds p [] = tt
  select_all-holds p (x ∷ xs) = elim (Bool-cases (p x)) [
    | inl hit ↦ rw hit (hit, select_all-holds p xs)
    | inr miss ↦ rw miss (select_all-holds p xs)
  ]

  pub select_all-All {κ} :
      (P : A → Type κ) (p : A → Bool) (xs : List A) → All P xs → All P (select_all p xs)
  unfolding select_all
  select_all-All P p [] h = tt
  select_all-All P p (x ∷ xs) h = elim (Bool-cases (p x)) [
    | inl hit ↦ rw hit (h.0, select_all-All P p xs h.1)
    | inr miss ↦ rw miss (select_all-All P p xs h.1)
  ]

  pub length-select_all-le : (p : A → Bool) (xs : List A) → length (select_all p xs) ≤ length xs
  unfolding select_all
  length-select_all-le p [] = omega arith
  length-select_all-le p (x ∷ xs) = ground (arith, length-select_all-le p xs)

  pub select_all-none :
      (p : A → Bool) (xs : List A) → All (λ x. p x ≡ false) xs → select_all p xs ≡ []
  unfolding select_all
  select_all-none p [] h = refl
  select_all-none p (x ∷ xs) h = rw h.0 (select_all-none p xs h.1)

  -- Deleting the one row that was just added.
  pub delete_rows-append_new :
      (p : A → Bool) (xs : List A) (x : A)
      → select_one p xs ≡ none
      → p x ≡ true
      → delete_rows p (xs ++ x ∷ []) ≡ xs
  unfolding select_one delete_rows
  delete_rows-append_new p [] x h hit = rw hit refl
  delete_rows-append_new p (y ∷ xs) x h hit = elim (Bool-cases (p y)) [
    | inl here ↦ absurd (ground arith)
    | inr miss ↦ rw miss (ap (λ ys. y ∷ ys) (delete_rows-append_new p xs x (rw miss at h) hit))
  ]

  -- An update adds no more rows to a count than it changes.
  pub count_rows-update-add :
      (q p : A → Bool) (f : A → A) (xs : List A)
      → count_rows q (update_rows p f xs) ≤ count_rows q xs + count_rows p xs
  unfolding count_rows update_rows
  count_rows-update-add q p f [] = omega arith
  count_rows-update-add q p f (x ∷ xs) = ground (arith, count_rows-update-add q p f xs)
