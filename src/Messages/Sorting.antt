-- ===== src/Messages/Sorting.antt =====
-- `ORDER BY` as it is modelled in Messages/Read.antt: nothing is lost, and the order is that of the key.
use runnerup_chat.Base.{
  ℕ, zero, suc, ◌+◌, ◌≤◌, ◌≡◌, refl, inl, inr, Bool, ◌&&◌, List, [], ◌∷◌, arith, take, ltb,
  Bool-cases, All, All-map, count_rows, select_all, if◌then◌else◌,
}
use runnerup_chat.Messages.Read.{sort_by, insert_by}

module _ {ℓ} {A : Type ℓ} where
  All-insert_by {κ} :
      (P : A → Type κ) (before : A → A → Bool) (x : A) (xs : List A)
      → P x
      → All P xs
      → All P (insert_by before x xs)
  unfolding insert_by
  All-insert_by P before x [] h hs = (h, tt)
  All-insert_by P before x (y ∷ ys) h hs = elim (Bool-cases (before x y)) [
    | inl first ↦ rw first (h, hs)
    | inr later ↦ rw later (hs.0, All-insert_by P before x ys h hs.1)
  ]

  pub All-sort_by {κ} :
      (P : A → Type κ) (before : A → A → Bool) (xs : List A) → All P xs → All P (sort_by before xs)
  unfolding sort_by
  All-sort_by P before [] h = tt
  All-sort_by P before (x ∷ xs) h = All-insert_by P before x _ h.0 (All-sort_by P before xs h.1)

  count_rows-insert_by :
      (q : A → Bool) (before : A → A → Bool) (x : A) (xs : List A)
      → count_rows q (insert_by before x xs) ≡ (if q x then 1 else 0) + count_rows q xs
  unfolding insert_by count_rows
  count_rows-insert_by q before x [] = refl
  count_rows-insert_by q before x (y ∷ ys) = elim (Bool-cases (before x y)) [
    | inl first ↦ rw first refl
    | inr later ↦ rw later (omega (arith, count_rows-insert_by q before x ys))
  ]

  pub count_rows-sort_by :
      (q : A → Bool) (before : A → A → Bool) (xs : List A)
      → count_rows q (sort_by before xs) ≡ count_rows q xs
  unfolding sort_by count_rows
  count_rows-sort_by q before [] = refl
  count_rows-sort_by q before (x ∷ xs) =
      omega
        (arith, count_rows-insert_by q before x (sort_by before xs), count_rows-sort_by q before xs)

  -- What stands behind the first `n`.
  abbrev pub rest_after : ℕ → List A → List A
  rest_after zero xs = xs
  rest_after (suc n) [] = []
  rest_after (suc n) (x ∷ xs) = rest_after n xs

  pub count_rows-take-rest :
      (q : A → Bool) (n : ℕ) (xs : List A)
      → count_rows q xs ≡ count_rows q (take n xs) + count_rows q (rest_after n xs)
  unfolding count_rows
  count_rows-take-rest q zero xs = omega arith
  count_rows-take-rest q (suc n) [] = refl
  count_rows-take-rest q (suc n) (x ∷ xs) = omega (arith, count_rows-take-rest q n xs)

  pub count_rows-select :
      (q p : A → Bool) (xs : List A)
      → count_rows q (select_all p xs) ≡ count_rows (λ x. p x && q x) xs
  unfolding count_rows select_all
  count_rows-select q p [] = refl
  count_rows-select q p (x ∷ xs) = elim (Bool-cases (p x)) [
    | inl hit ↦ rw hit (omega (arith, count_rows-select q p xs))
    | inr miss ↦ rw miss (omega (arith, count_rows-select q p xs))
  ]

  module _ (key : A → ℕ) where
    -- No key is less than one before it.
    abbrev pub Ascending : List A → Type 0
    Ascending [] = Unit
    Ascending (x ∷ xs) = All (λ y. key x ≤ key y) xs × Ascending xs

    abbrev pub by_key : A → A → Bool
    by_key a b = ltb (key a) (key b)

    Ascending-insert_by : (x : A) (xs : List A) → Ascending xs → Ascending (insert_by by_key x xs)
    unfolding insert_by
    Ascending-insert_by x [] h = (tt, tt)
    Ascending-insert_by x (y ∷ ys) h = elim (Bool-cases (by_key x y)) [
      | inl first ↦
          let less : key x ≤ key y = ground arith in
          rw first (
            (less, All-map (λ z. key y ≤ key z) (λ z. key x ≤ key z) ys (λ z le. omega arith) h.0),
            h,
          )
      | inr later ↦
          let less : key y ≤ key x = ground arith in
          rw later
            (All-insert_by (λ z. key y ≤ key z) by_key x ys less h.0, Ascending-insert_by x ys h.1)
    ]

    pub Ascending-sort_by : (xs : List A) → Ascending (sort_by by_key xs)
    unfolding sort_by
    Ascending-sort_by [] = tt
    Ascending-sort_by (x ∷ xs) = Ascending-insert_by x _ (Ascending-sort_by xs)
