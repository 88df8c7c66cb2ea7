-- ===== src/Storage/Names.antt =====
-- What `sanitize_filename` of backend/app/services/storage.py leaves of a name.
use runnerup_chat.Base.{
  ℕ, ◌≤◌, ◌≡◌, ◌⊎◌, refl, inl, inr, Bool, true, false, [], ◌∷◌, arith, length, take, length-take-le,
  Bool-cases, All, All-map, All-take,
}
use runnerup_chat.Texts.{any_of, is_space}
use runnerup_chat.Texts.Laws.{All-strip_of}
use runnerup_chat.Security.{Platform}
use runnerup_chat.Models.Accounts.{Text}
use runnerup_chat.Storage.{is_kept, keep_all, or_file, sanitize_filename, is_dot_or_blank}

-- NUL, the quote, the slash and the backslash.
unfoldable pub is_harmful : ℕ → Bool
is_harmful c = any_of (0 ∷ 34 ∷ 47 ∷ 92 ∷ []) c

harmful-cases : (c : ℕ) → is_harmful c ≡ true → (c ≡ 0) ⊎ ((c ≡ 34) ⊎ ((c ≡ 47) ⊎ (c ≡ 92)))
unfolding is_harmful
harmful-cases c h = ground arith

All-keep_all : (p : ℕ → Bool) (t : Text) → All (λ c. p c ≡ true) (keep_all p t)
All-keep_all p [] = tt
All-keep_all p (c ∷ cs) = elim (Bool-cases (p c)) [
  | inl hit ↦ rw hit (hit, All-keep_all p cs)
  | inr miss ↦ rw miss (All-keep_all p cs)
]

All-or_file :
    (t : Text) → All (λ c. is_harmful c ≡ false) t → All (λ c. is_harmful c ≡ false) (or_file t)
unfolding is_harmful
All-or_file [] h = (refl, (refl, (refl, (refl, tt))))
All-or_file (c ∷ cs) h = h

or_file-length : (t : Text) → 1 ≤ length (take 200 (or_file t))
or_file-length [] = omega arith
or_file-length (c ∷ cs) = omega arith

module _ (os : Platform) where
  kept-safe :
      (c : ℕ)
      → All (λ x. os.is_word x ≡ false) (0 ∷ 34 ∷ 47 ∷ 92 ∷ [])
      → is_kept os c ≡ true
      → is_harmful c ≡ false
  unfolding is_kept is_space
  kept-safe c words kept = elim (Bool-cases (is_harmful c)) [
    | inr safe ↦ safe
    | inl bad ↦ elim (harmful-cases c bad) [
      | inl e ↦ absurd (cc (words.0, rw e at kept))
      | inr (inl e) ↦ absurd (cc (words.1.0, rw e at kept))
      | inr (inr (inl e)) ↦ absurd (cc (words.1.1.0, rw e at kept))
      | inr (inr (inr e)) ↦ absurd (cc (words.1.1.1.0, rw e at kept))
    ]
  ]

  -- Where the class `\w` has neither NUL nor the quote, the slash and the backslash, a name that was
  -- cleaned has none of these four, is not empty, and has at most 200 characters.
  pub sanitized_name_is_safe :
      (raw : Text)
      → All (λ x. os.is_word x ≡ false) (0 ∷ 34 ∷ 47 ∷ 92 ∷ [])
      → All (λ c. is_harmful c ≡ false) (sanitize_filename os raw)
        × (1 ≤ length (sanitize_filename os raw))
        × (length (sanitize_filename os raw) ≤ 200)
  unfolding sanitize_filename
  sanitized_name_is_safe raw words = (
    All-take _ 200 _ (
        All-or_file _ (
          All-strip_of _ is_dot_or_blank _
            (All-map _ _ _ (λ c kept. kept-safe c words kept) (All-keep_all (is_kept os) _)))),
    or_file-length _,
    length-take-le 200 _,
  )
