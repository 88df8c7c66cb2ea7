-- ===== src/Texts/Laws.antt =====
-- Laws of texts: equality, prefixes, and what is left by cutting.
use runnerup_chat.Base.{
  ℕ, ◌≡◌, refl, inl, inr, Bool, true, List, [], ◌∷◌, ◌++◌, arith, ==_refl, Bool-cases, All,
}
use runnerup_chat.Texts.{same_text, starts_with, drop_while, reverse_onto, strip_of}

pub same_text_refl : (t : List ℕ) → same_text t t ≡ true
same_text_refl [] = refl
same_text_refl (c ∷ cs) = ground (arith, ==_refl c, same_text_refl cs)

pub eq_of_same_text : (s t : List ℕ) → same_text s t ≡ true → s ≡ t
eq_of_same_text [] [] h = refl
eq_of_same_text [] (d ∷ ds) h = absurd (cc)
eq_of_same_text (c ∷ cs) [] h = absurd (cc)
eq_of_same_text (c ∷ cs) (d ∷ ds) h =
    let tails : cs ≡ ds = eq_of_same_text cs ds (ground arith) in
    let heads : c ≡ d = ground arith in rw (heads, tails) refl

pub same_text_sym : (s t : List ℕ) → same_text s t ≡ same_text t s
same_text_sym [] [] = refl
same_text_sym [] (d ∷ ds) = refl
same_text_sym (c ∷ cs) [] = refl
same_text_sym (c ∷ cs) (d ∷ ds) = ground (arith, same_text_sym cs ds)

pub starts_with-append : (s t : List ℕ) → starts_with s (s ++ t) ≡ true
starts_with-append [] t = refl
starts_with-append (c ∷ cs) t = ground (arith, ==_refl c, starts_with-append cs t)

-- What holds of every character holds of those that are left.
pub All-drop_while {κ} :
    (P : ℕ → Type κ) (p : ℕ → Bool) (t : List ℕ) → All P t → All P (drop_while p t)
unfolding drop_while
All-drop_while P p [] h = tt
All-drop_while P p (c ∷ cs) h = elim (Bool-cases (p c)) [
  | inl hit ↦ rw hit (All-drop_while P p cs h.1)
  | inr miss ↦ rw miss h
]

pub All-reverse_onto {κ} :
    (P : ℕ → Type κ) (xs ys : List ℕ) → All P xs → All P ys → All P (reverse_onto xs ys)
unfolding reverse_onto
All-reverse_onto P [] ys h k = k
All-reverse_onto P (x ∷ xs) ys h k = All-reverse_onto P xs (x ∷ ys) h.1 (h.0, k)

pub All-strip_of {κ} : (P : ℕ → Type κ) (p : ℕ → Bool) (t : List ℕ) → All P t → All P (strip_of p t)
unfolding strip_of
All-strip_of P p t h =
    All-reverse_onto P _ []
      (All-drop_while P p _ (All-reverse_onto P _ [] (All-drop_while P p t h) tt)) tt
