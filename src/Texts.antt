-- ===== src/Texts.antt =====
-- What the source uses of Python's strings: a text is a list of code points.
pub mod Laws
use Prim.Native.String.{String}
use Prim.Native.Char.{code}
use runnerup_chat.Base.{
  ℕ, zero, suc, ◌+◌, ◌-◌, Bool, true, false, ◌&&◌, ◌||◌, List, [], ◌∷◌, ◌++◌, length, leb, ◌==◌,
  if◌then◌else◌,
}

-- The code points of a literal.
abbrev pub codes : String → List ℕ
codes String.[] = []
codes (String.◌∷◌ c s) = code c ∷ codes s

abbrev pub any_of : List ℕ → ℕ → Bool
any_of [] c = false
any_of (x ∷ xs) c = x == c || any_of xs c

-- The code points that `str.strip` takes off.
unfoldable pub is_space : ℕ → Bool
is_space c =
    (leb 9 c && leb c 13)
    || (leb 28 c && leb c 32)
    || (leb 8192 c && leb c 8202)
    || any_of (133 ∷ 160 ∷ 5760 ∷ 8232 ∷ 8233 ∷ 8239 ∷ 8287 ∷ 12288 ∷ []) c

abbrev pub same_text : List ℕ → List ℕ → Bool
same_text [] [] = true
same_text [] (d ∷ ds) = false
same_text (c ∷ cs) [] = false
same_text (c ∷ cs) (d ∷ ds) = c == d && same_text cs ds

-- `text.startswith(prefix)`
abbrev pub starts_with : (prefix text : List ℕ) → Bool
starts_with [] ds = true
starts_with (c ∷ cs) [] = false
starts_with (c ∷ cs) (d ∷ ds) = c == d && starts_with cs ds

-- `lower` and `upper` do this to the letters of ASCII.
abbrev pub ascii_lower : ℕ → ℕ
ascii_lower c = if leb b'A' c && leb c b'Z' then c + 32 else c

abbrev pub drop : ℕ → List ℕ → List ℕ
drop zero xs = xs
drop (suc n) [] = []
drop (suc n) (x ∷ xs) = drop n xs

unfoldable pub drop_while : (ℕ → Bool) → List ℕ → List ℕ
drop_while p [] = []
drop_while p (c ∷ cs) = if p c then drop_while p cs else c ∷ cs

unfoldable pub reverse_onto : List ℕ → List ℕ → List ℕ
reverse_onto [] ys = ys
reverse_onto (x ∷ xs) ys = reverse_onto xs (x ∷ ys)

-- `text.strip(...)`, of the characters that fit.
unfoldable pub strip_of : (ℕ → Bool) → List ℕ → List ℕ
strip_of p t = reverse_onto (drop_while p (reverse_onto (drop_while p t) [])) []

-- `text[-n:]`
abbrev pub last_of : ℕ → List ℕ → List ℕ
last_of n t = drop (length t - n) t

-- `text.split(d)`, where the piece that is being read is `h`.
unfoldable pub split_on : ℕ → (h : List ℕ) → List ℕ → List (List ℕ)
split_on d h [] = h ∷ []
split_on d h (c ∷ cs) =
    let rest = split_on d (if c == d then [] else h ++ c ∷ []) cs in
    if c == d then h ∷ rest else rest
