-- ===== src/Security/Codes.antt =====
-- One-time codes of core/security.py: their shape, and that no two draws give one code.
use runnerup_chat.Base.{
  ℕ, zero, suc, ◌+◌, ◌-◌, ◌*◌, ◌/◌, ◌%◌, ◌^◌, ◌≤◌, ◌<◌, ◌≡◌, refl, sym, ap, ◌∙◌, [], ◌∷◌, ◌++◌,
  arith, length, length-append, All, All-append,
}
use native.Mathlib.Nat.{pow-suc}
use runnerup_chat.Models.Accounts.{Text}
use runnerup_chat.Security.{pad_decimal, numeric_otp}

-- Reading digits from the left.
read_digits : ℕ → Text → ℕ
read_digits acc [] = acc
read_digits acc (c ∷ cs) = read_digits (acc * 10 + (c - b'0')) cs

read_digits-append :
    (acc : ℕ) (xs ys : Text) → read_digits acc (xs ++ ys) ≡ read_digits (read_digits acc xs) ys
unfolding read_digits
read_digits-append acc [] ys = refl
read_digits-append acc (x ∷ xs) ys = read_digits-append (acc * 10 + (x - b'0')) xs ys

length-pad_decimal : (k n : ℕ) → length (pad_decimal k n) ≡ k
unfolding pad_decimal
length-pad_decimal zero n = refl
length-pad_decimal (suc k) n = omega (
  arith,
  length-append (pad_decimal k (n / 10)) ((b'0' + n % 10) ∷ []),
  length-pad_decimal k (n / 10),
)

digits-pad_decimal : (k n : ℕ) → All (λ c. (b'0' ≤ c) × (c ≤ b'9')) (pad_decimal k n)
unfolding pad_decimal
digits-pad_decimal zero n = tt
digits-pad_decimal (suc k) n =
    All-append _ (pad_decimal k (n / 10)) _ (digits-pad_decimal k (n / 10)) (omega arith)

read-pad_decimal : (k n : ℕ) → n < 10 ^ k → read_digits 0 (pad_decimal k n) ≡ n
unfolding pad_decimal read_digits
read-pad_decimal zero n h = omega arith
read-pad_decimal (suc k) n h =
    let ih = read-pad_decimal k (n / 10) (omega (arith, pow-suc 10 k)) in
    omega (arith, read_digits-append 0 (pad_decimal k (n / 10)) ((b'0' + n % 10) ∷ []), ih)

-- A code has exactly as many characters as were asked for, leading zeros included, and all are digits.
numeric_otp_shape :
    (k n : ℕ)
    → (length (numeric_otp k n) ≡ k) × All (λ c. (b'0' ≤ c) × (c ≤ b'9')) (numeric_otp k n)
unfolding numeric_otp
numeric_otp_shape k n = (length-pad_decimal k n, digits-pad_decimal k n)

-- Different draws below 10 ^ k give different codes, so every code is as likely as every draw.
numeric_otp-injective :
    (k m n : ℕ) → m < 10 ^ k → n < 10 ^ k → numeric_otp k m ≡ numeric_otp k n → m ≡ n
unfolding numeric_otp
numeric_otp-injective k m n hm hn e =
    sym (read-pad_decimal k m hm) ∙ ap (read_digits 0) e ∙ read-pad_decimal k n hn
