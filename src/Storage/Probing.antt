-- ===== src/Storage/Probing.antt =====
-- What `probe_object` of backend/app/services/storage.py detects.
use runnerup_chat.Base.{
  ℕ, suc, zero, ◌≤◌, ◌≡◌, ◌≢◌, ◌⊎◌, refl, ◌∙◌, inl, inr, Bool, true, false, Option, none, some,
  List, [], ◌∷◌, ◌++◌, arith, length, take, ltb, ◌==◌, Bool-cases, Option-cases, select_one,
}
use runnerup_chat.Errors.{
  Result, ok, err, AppError, validation_failed, type_error, storage_error, file_too_large,
  file_type_not_allowed,
}
use runnerup_chat.Texts.{starts_with}
use runnerup_chat.Config.{Settings}
use runnerup_chat.Models.Accounts.{Text}
use runnerup_chat.World.{World, StoredObject}
use runnerup_chat.Storage.{
  Signatures, tuple, raw_bytes, allowed_mime, any_signature, detect, Probe, probe_object, is_object,
  magic_prefix_bytes,
}

-- One of these leads the content.
pub data Leads (content : List ℕ) : List (List ℕ) → Type 0 where
  first :
      (sig tail : List ℕ) (sigs : List (List ℕ))
      → content ≡ sig ++ tail
      → Leads content (sig ∷ sigs)
  later : (sig : List ℕ) (sigs : List (List ℕ)) → Leads content sigs → Leads content (sig ∷ sigs)

-- The content begins with one of the signatures of this type in the table.
pub data Signed (content : List ℕ) : List (Text × Signatures) → Text → Type 0 where
  here :
      (mime : Text) (sigs : List (List ℕ)) (rest : List (Text × Signatures))
      → Leads content sigs
      → Signed content ((mime, tuple sigs) ∷ rest) mime
  there :
      (e : Text × Signatures) (rest : List (Text × Signatures)) (mime : Text)
      → Signed content rest mime
      → Signed content (e ∷ rest) mime

starts_with-tail :
    (sig content : List ℕ) (n : ℕ)
    → starts_with sig (take n content) ≡ true
    → (tail : List ℕ) × (content ≡ sig ++ tail)
starts_with-tail [] content n h = (content, refl)
starts_with-tail (c ∷ cs) content zero h = absurd (cc)
starts_with-tail (c ∷ cs) [] (suc n) h = absurd (cc)
starts_with-tail (c ∷ cs) (d ∷ ds) (suc n) h =
    let (tail, e) = starts_with-tail cs ds n (ground arith) in
    let heads : c ≡ d = ground arith in (tail, ground arith)

any_signature-Leads :
    (sigs : List (List ℕ)) (content : List ℕ) (n : ℕ)
    → any_signature (tuple sigs) (take n content) ≡ ok true
    → Leads content sigs
unfolding any_signature
any_signature-Leads [] content n h = absurd (cc)
any_signature-Leads (sig ∷ sigs) content n h =
    elim (Bool-cases (starts_with sig (take n content))) [
      | inl hit ↦ let (tail, e) = starts_with-tail sig content n hit in first sig tail sigs e
      | inr miss ↦ later sig sigs (any_signature-Leads sigs content n (rw miss at h))
    ]

any_signature-ok :
    (sigs : List (List ℕ)) (prefix : List ℕ)
    → (any_signature (tuple sigs) prefix ≡ ok true) ⊎ (any_signature (tuple sigs) prefix ≡ ok false)
unfolding any_signature
any_signature-ok [] prefix = inr refl
any_signature-ok (sig ∷ sigs) prefix = elim (Bool-cases (starts_with sig prefix)) [
  | inl hit ↦ inl (rw hit refl)
  | inr miss ↦ rw miss (any_signature-ok sigs prefix)
]

-- Does a byte string stand where a tuple is meant?
abbrev has_raw : List (Text × Signatures) → Bool
has_raw [] = false
has_raw ((mime, tuple sigs) ∷ rest) = has_raw rest
has_raw ((mime, raw_bytes []) ∷ rest) = has_raw rest
has_raw ((mime, raw_bytes (b ∷ bs)) ∷ rest) = true

-- What the loop over the table finds of a content: a type whose signature leads it, or nothing, or
-- the loop ends in an error.
pub data Detected (content : List ℕ) (table : List (Text × Signatures)) (r : Result (Option Text))
    : Type 0 where
  signed : (mime : Text) → Signed content table mime → r ≡ ok (some mime) → Detected content table r
  unsigned : has_raw table ≡ false → r ≡ ok none → Detected content table r
  broken : r ≡ err type_error → Detected content table r

Detected-there :
    (content : List ℕ) (e : Text × Signatures) (rest : List (Text × Signatures))
    (r : Result (Option Text))
    → has_raw (e ∷ rest) ≡ has_raw rest
    → Detected content rest r
    → Detected content (e ∷ rest) r
Detected-there content e rest r same (signed mime s h) = signed mime (there e rest mime s) h
Detected-there content e rest r same (unsigned free h) = unsigned (same ∙ free) h
Detected-there content e rest r same (broken h) = broken h

detect-Detected :
    (content : List ℕ) (n : ℕ) (table : List (Text × Signatures))
    → Detected content table (detect table (take n content))
unfolding detect any_signature
detect-Detected content n [] = unsigned refl refl
detect-Detected content n ((mime, tuple sigs) ∷ rest) =
    elim (any_signature-ok sigs (take n content)) [
      | inl e ↦
          rw (e, detect)
            (signed mime (here mime sigs rest (any_signature-Leads sigs content n e)) refl)
      | inr e ↦
          rw (e, detect) (Detected-there content _ rest _ refl (detect-Detected content n rest))
    ]
detect-Detected content n ((mime, raw_bytes []) ∷ rest) =
    (Detected-there content _ rest _ refl (detect-Detected content n rest))
detect-Detected content n ((mime, raw_bytes (b ∷ bs)) ∷ rest) = broken refl

-- The answers of a probe. None is that the type is unknown.
pub data Probed (cfg : Settings) (key : Text) (w : World) (x : Result Probe × World) : Type 0 where
  failed :
      (e : AppError)
      → e ≢ validation_failed file_type_not_allowed
      → x ≡ (err e, w)
      → Probed cfg key w x
  found :
      (o : StoredObject) (mime : Text)
      → select_one (is_object key) w.objects ≡ some o
      → 1 ≤ length o.content
      → length o.content ≤ cfg.max_upload_bytes
      → Signed o.content allowed_mime mime
      → x ≡ (ok (record { byte_size = length o.content; detected_mime = some mime }), w)
      → Probed cfg key w x

pub probe_object-Probed :
    (cfg : Settings) (key : Text) (w : World) → Probed cfg key w (probe_object cfg key w)
unfolding probe_object
probe_object-Probed cfg key w = elim (Option-cases (select_one (is_object key) w.objects)) [
  | inl missing ↦ rw missing (failed storage_error (λ h. cc) refl)
  | inr (o, stored) ↦ elim (Bool-cases (ltb cfg.max_upload_bytes (length o.content))) [
    | inl large ↦ rw (stored, large) (failed (validation_failed file_too_large) (λ h. cc) refl)
    | inr fits ↦ elim (Bool-cases (length o.content == 0)) [
      | inl empty ↦ rw (stored, fits, empty) (failed storage_error (λ h. cc) refl)
      | inr full ↦ elim (detect-Detected o.content magic_prefix_bytes allowed_mime) [
        | signed mime s e ↦
            rw (stored, fits, full, e) (found o mime stored (ground arith) (ground arith) s refl)
        | unsigned free e ↦ absurd (cc)
        | broken e ↦ rw (stored, fits, full, e) (failed type_error (λ h. cc) refl)
      ]
    ]
  ]
]
