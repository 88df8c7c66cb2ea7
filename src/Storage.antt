-- ===== src/Storage.antt =====
-- backend/app/services/storage.py. The bucket is the state's list of objects; the URLs that its client
-- signs are the platform's. Missing objects, and the first bytes of an empty one, are errors of it.
pub mod Uploads
pub mod Names
pub mod Probing
pub mod Finalize
pub mod Downloads
mod Tests
use runnerup_chat.Base.{
  ℕ, Bool, true, false, not, ◌&&◌, ◌||◌, Option, none, some, List, [], ◌∷◌, ◌++◌, length, take, map,
  ltb, ◌==◌, select_one, delete_rows, if◌then◌else◌,
}
use runnerup_chat.Errors.{
  Result, ok, err, validation_failed, type_error, storage_error, file_too_large,
  file_type_not_allowed,
}
use runnerup_chat.Texts.{
  codes, any_of, is_space, same_text, starts_with, ascii_lower, strip_of, split_on,
}
use runnerup_chat.Config.{Settings}
use runnerup_chat.Security.{Platform}
use runnerup_chat.Models.Accounts.{Uuid, Text}
use runnerup_chat.World.{◌>>=◌, ◌>>◌, Exec, StoredObject, pure, gets, or_raise, raise_if, lift}

-- A value of the table: a tuple of byte strings, or a byte string, where the comma is missing.
pub data Signatures : Type 0 where
  tuple : List (List ℕ) → Signatures
  raw_bytes : List ℕ → Signatures

-- `ALLOWED_MIME`, in its order.
unfoldable pub allowed_mime : List (Text × Signatures)
allowed_mime =
    (codes "image/jpeg", tuple ((255 ∷ 216 ∷ 255 ∷ []) ∷ []))
    ∷ (codes "image/png", tuple ((137 ∷ codes "PNG" ++ 13 ∷ 10 ∷ 26 ∷ 10 ∷ []) ∷ []))
    ∷ (codes "image/gif", tuple (codes "GIF87a" ∷ codes "GIF89a" ∷ []))
    ∷ (codes "image/webp", tuple (codes "RIFF" ∷ []))
    ∷ (
      codes "video/mp4",
      tuple (
          (0 ∷ 0 ∷ 0 ∷ 24 ∷ codes "ftyp")
          ∷ (0 ∷ 0 ∷ 0 ∷ 28 ∷ codes "ftyp")
          ∷ (0 ∷ 0 ∷ 0 ∷ 32 ∷ codes "ftyp")
          ∷ []),
    )
    ∷ (codes "audio/mpeg", tuple (codes "ID3" ∷ (255 ∷ 251 ∷ []) ∷ []))
    ∷ (codes "audio/ogg", tuple (codes "OggS" ∷ []))
    ∷ (codes "audio/webm", raw_bytes (26 ∷ 69 ∷ 223 ∷ 163 ∷ []))
    ∷ (codes "application/pdf", tuple (codes "%PDF-" ∷ []))
    ∷ []

-- `BLOCKED_EXTENSIONS`
unfoldable pub blocked_extensions : List Text
blocked_extensions =
    codes "exe"
    ∷ codes "dll"
    ∷ codes "so"
    ∷ codes "dylib"
    ∷ codes "bat"
    ∷ codes "cmd"
    ∷ codes "com"
    ∷ codes "scr"
    ∷ codes "msi"
    ∷ codes "app"
    ∷ codes "sh"
    ∷ codes "bash"
    ∷ codes "zsh"
    ∷ codes "ps1"
    ∷ codes "psm1"
    ∷ codes "vbs"
    ∷ codes "js"
    ∷ codes "jar"
    ∷ codes "class"
    ∷ codes "py"
    ∷ codes "rb"
    ∷ codes "pl"
    ∷ codes "php"
    ∷ codes "asp"
    ∷ codes "aspx"
    ∷ codes "jsp"
    ∷ codes "cgi"
    ∷ codes "html"
    ∷ codes "htm"
    ∷ codes "svg"
    ∷ []

abbrev pub magic_prefix_bytes : ℕ
magic_prefix_bytes = 32

pub record UploadGrant : Type 0 where
  pub attachment_id : Uuid
  pub storage_key : Text
  pub upload_url : Text
  pub expires_in : ℕ

-- `re.sub(r"[\\/]", "_", name)`, on one character.
unfoldable pub no_separator : ℕ → ℕ
no_separator c = if c == b'/' || c == 92 then b'_' else c

-- `re.sub(r"\.{2,}", ".", name)`: of a run of dots, the last stays.
unfoldable pub collapse_dots : Text → Text
collapse_dots [] = []
collapse_dots (c ∷ cs) =
    let rest = collapse_dots cs in
    if c == b'.' && starts_with (b'.' ∷ []) cs then rest else c ∷ rest

-- The characters that `re.sub(r"[^\w\s.\-()\[\]]", "", name)` keeps.
unfoldable pub is_kept : Platform → ℕ → Bool
is_kept os c = os.is_word c || is_space c || any_of (codes ".-()[]") c

abbrev pub keep_all : (ℕ → Bool) → Text → Text
keep_all p [] = []
keep_all p (c ∷ cs) = if p c then c ∷ keep_all p cs else keep_all p cs

abbrev pub is_dot_or_blank : ℕ → Bool
is_dot_or_blank c = c == b'.' || c == b' '

-- `name or "file"`
abbrev pub or_file : Text → Text
or_file [] = codes "file"
or_file (c ∷ cs) = c ∷ cs

unfoldable pub sanitize_filename : Platform → Text → Text
unfolding no_separator collapse_dots is_kept strip_of
sanitize_filename os raw =
    let name = keep_all (λ c. not (c == 0)) (strip_of is_space raw) in
    let cleaned = keep_all (is_kept os) (collapse_dots (map no_separator name)) in
    take 200 (or_file (strip_of is_dot_or_blank cleaned))

abbrev pub last_piece : Text → List Text → Text
last_piece t [] = t
last_piece t (p ∷ ps) = last_piece p ps

-- `lower` makes no other letter one of ASCII that the blocked extensions have.
unfoldable pub extension_of : Text → Text
unfolding split_on
extension_of name =
    if any_of name b'.' then map ascii_lower (last_piece [] (split_on b'.' [] name)) else []

abbrev pub is_among : List Text → Text → Bool
is_among [] t = false
is_among (x ∷ xs) t = same_text x t || is_among xs t

abbrev pub keys : List (Text × Signatures) → List Text
keys = map (λ e. e.0)

module _ (os : Platform) (cfg : Settings) where
  unfoldable pub storage_key_of : (owner_id attachment_id drawn : Uuid) → Text
  storage_key_of owner_id attachment_id drawn =
      codes "u/"
      ++ os.show_uuid owner_id
      ++ codes "/"
      ++ os.show_uuid attachment_id
      ++ codes "/"
      ++ os.hex drawn

  unfoldable pub create_upload_grant :
      Uuid
      → (declared_name declared_mime : Text) (declared_size : ℕ) (attachment_id drawn : Uuid)
      → Exec UploadGrant
  unfolding allowed_mime
  create_upload_grant owner_id declared_name declared_mime declared_size attachment_id drawn = do
    raise_if (declared_size == 0 || ltb cfg.max_upload_bytes declared_size)
        (validation_failed file_too_large)
    raise_if (is_among blocked_extensions (extension_of declared_name))
        (validation_failed file_type_not_allowed)
    raise_if (not (is_among (keys allowed_mime) declared_mime))
        (validation_failed file_type_not_allowed)
    let storage_key = storage_key_of owner_id attachment_id drawn
    pure (record {
      attachment_id = attachment_id;
      storage_key = storage_key;
      upload_url = os.presign_put storage_key declared_size cfg.upload_url_ttl_seconds;
      expires_in = cfg.upload_url_ttl_seconds;
    })

pub record Probe : Type 0 where
  pub byte_size : ℕ
  pub detected_mime : Option Text

-- `any(prefix.startswith(sig) for sig in signatures)`: of a byte string, the elements are numbers,
-- which `startswith` refuses.
unfoldable pub any_signature : Signatures → List ℕ → Result Bool
any_signature (tuple []) prefix = ok false
any_signature (tuple (sig ∷ sigs)) prefix =
    let rest = any_signature (tuple sigs) prefix in if starts_with sig prefix then ok true else rest
any_signature (raw_bytes []) prefix = ok false
any_signature (raw_bytes (b ∷ bs)) prefix = err type_error

-- The loop over the table.
unfoldable pub detect : List (Text × Signatures) → List ℕ → Result (Option Text)
unfolding any_signature
detect [] prefix = ok none
detect ((mime, signatures) ∷ rest) prefix = elim (any_signature signatures prefix) [
  | err e ↦ err e
  | ok true ↦ ok (some mime)
  | ok false ↦ detect rest prefix
]

abbrev pub is_object : Text → StoredObject → Bool
is_object key o = same_text o.key key

unfoldable pub probe_object : Settings → Text → Exec Probe
unfolding allowed_mime
probe_object cfg storage_key = do
  o ← or_raise (← gets (λ w. select_one (is_object storage_key) w.objects)) storage_error
  let size = length o.content
  raise_if (ltb cfg.max_upload_bytes size) (validation_failed file_too_large)
  raise_if (size == 0) storage_error
  detected ← lift (detect allowed_mime (take magic_prefix_bytes o.content))
  pure (record { byte_size = size; detected_mime = detected })

unfoldable pub delete_object : Text → Exec (Unit {0})
delete_object storage_key w =
    (ok tt, record w { objects = delete_rows (is_object storage_key) w.objects })

unfoldable pub signed_download_url :
    Platform → Settings → (storage_key display_name : Text) → Exec Text
signed_download_url os cfg storage_key display_name = pure (
    os.presign_get storage_key
      (codes "attachment; filename=\"" ++ sanitize_filename os display_name ++ codes "\"")
      cfg.download_url_ttl_seconds)
