-- ===== src/Messages/Body.antt =====
-- What `_validate_body` of services/messages.py lets through.
use runnerup_chat.Base.{
  ℕ, ◌≤◌, ◌≡◌, ◌≢◌, sym, ◌&&◌, true, false, not, Option, none, some, List, [], ◌∷◌, arith, ◌==◌,
  length, select_all, All, select_all-holds, select_all-All, length-select_all-le, select_all-none,
}
use runnerup_chat.Errors.{ok}
use runnerup_chat.Models.Accounts.{Uuid, Text}
use runnerup_chat.Models.Chat.{MessageKind}
use runnerup_chat.Messages.{clean, is_printable, is_all_space, is_blank, validate_body, is_text}

-- A character that a stored body may have: tab, newline, or one from the space on, but for the two
-- overrides of the writing direction.
abbrev pub IsSafe : ℕ → Type 0
IsSafe c = (is_printable c ≡ true) × (c ≢ 0x202e) × (c ≢ 0x202d)

abbrev pub chars : Option Text → Text
chars none = []
chars (some b) = b

All-IsSafe :
    (xs : Text)
    → All (λ c. is_printable c ≡ true) xs
    → All (λ c. not (c == 0x202e) ≡ true) xs
    → All (λ c. not (c == 0x202d) ≡ true) xs
    → All IsSafe xs
All-IsSafe [] p q r = tt
All-IsSafe (x ∷ xs) p q r = ((p.0, ground arith, ground arith), All-IsSafe xs p.1 q.1 r.1)

pub clean-IsSafe : (b : Text) → All IsSafe (clean b)
unfolding clean
clean-IsSafe b =
    let printable = select_all is_printable b in
    let forward = select_all (λ c. not (c == 0x202e)) printable in
    let p1 =
      select_all-All (λ c. is_printable c ≡ true) (λ c. not (c == 0x202d)) forward
        (select_all-All (λ c. is_printable c ≡ true) (λ c. not (c == 0x202e)) printable
          (select_all-holds is_printable b)) in
    let p2 =
      select_all-All (λ c. not (c == 0x202e) ≡ true) (λ c. not (c == 0x202d)) forward
        (select_all-holds (λ c. not (c == 0x202e)) printable) in
    let p3 = select_all-holds (λ c. not (c == 0x202d)) forward in All-IsSafe _ p1 p2 p3

clean-le : (b : Text) → length (clean b) ≤ length b
unfolding clean
clean-le b = omega (
  arith,
  length-select_all-le is_printable b,
  length-select_all-le (λ c. not (c == 0x202e)) (select_all is_printable b),
  length-select_all-le (λ c. not (c == 0x202d))
      (select_all (λ c. not (c == 0x202e)) (select_all is_printable b)),
)

-- A body that validation lets through is safe to store: it has at most 8192 characters, every one of
-- them a tab, a newline or a character from the space on, and none of them an override of the
-- writing direction; at most ten attachments come with it; and a TEXT message came with a text that
-- was not all white space.
validate_body_lem :
    (body : Option Text) (kind : MessageKind) (attachment_ids : List Uuid) (stored : Option Text)
    → validate_body body kind attachment_ids ≡ ok stored
    → All IsSafe (chars stored)
      × (length (chars stored) ≤ 8192)
      × (length attachment_ids ≤ 10)
      × ((is_text kind && is_blank body) ≡ false)
unfolding validate_body
validate_body_lem none kind attachment_ids none h = (tt, omega arith, ground arith, ground arith)
validate_body_lem none kind attachment_ids (some s) h = absurd (ground arith)
validate_body_lem (some b) kind attachment_ids none h = absurd (ground arith)
validate_body_lem (some b) kind attachment_ids (some s) h =
    let same : clean b ≡ s = ground arith in
    let short : length b ≤ 8192 = ground arith in
    (
      rw (sym same) (clean-IsSafe b),
      rw (sym same) (omega (arith, clean-le b)),
      ground arith,
      ground arith,
    )

-- The test for an empty message comes before control characters are removed. A TEXT message that has
-- nothing but control characters, not all of them white space, is let through, and is stored empty.
control_characters_stored_empty :
    (body : Text)
    → All (λ c. is_printable c ≡ false) body
    → is_all_space body ≡ false
    → length body ≤ 8192
    → validate_body (some body) MessageKind.text [] ≡ ok (some [])
unfolding validate_body clean is_blank select_all
control_characters_stored_empty body control shown short =
    let gone : select_all is_printable body ≡ [] = select_all-none is_printable body control in
    rw (shown, gone) (ground arith)
