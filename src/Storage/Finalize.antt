-- ===== src/Storage/Finalize.antt =====
-- The validation of an upload, `finalize_upload` of backend/app/api/v1/uploads.py.
use runnerup_chat.Base.{
  ℕ, ◌≤◌, ◌≡◌, ◌≢◌, refl, inl, inr, true, Option, none, some, length, ◌==◌, Bool-cases,
  Option-cases, select_one, update_rows,
}
use runnerup_chat.Errors.{
  Result, ok, err, AppError, validation_failed, not_visible, invalid_attachment,
  file_type_not_allowed,
}
use runnerup_chat.Config.{Settings}
use runnerup_chat.Security.{Platform}
use runnerup_chat.Models.Accounts.{Uuid, Text}
use runnerup_chat.Models.Chat.{Attachment}
use runnerup_chat.World.{World, Db, StoredObject, commit}
use runnerup_chat.Deps.{Principal}
use runnerup_chat.Storage.{allowed_mime, is_object}
use runnerup_chat.Storage.Probing.{Signed, failed, found, probe_object-Probed}
use runnerup_chat.Storage.Uploads.{
  is_ready, is_own_attachment, finalize, settle, validate, finalize_upload,
}

-- The observation that an upload becomes ready on: its object is in storage, is neither empty nor too
-- large, and begins with a signature of the type.
pub record Observed (cfg : Settings) (w : World) (a : Attachment) (o : StoredObject) (mime : Text)
    : Type 0 where
  pub stored : select_one (is_object a.storage_key) w.objects ≡ some o
  pub filled : 1 ≤ length o.content
  pub fits : length o.content ≤ cfg.max_upload_bytes
  pub signed : Signed o.content allowed_mime mime

-- The state in which the row `a` is finalized, and committed.
abbrev pub finalized : World → Attachment → Text → ℕ → World
finalized w a mime size =
    let d : Db = record w.db {
      attachments =
          update_rows (λ (r : Attachment). r.id == a.id) (finalize mime size w.now)
            w.db.attachments;
    } in
    record w { db = d; saved = d }

-- The ways in which `finalize_upload` ends.
pub data Finalized (os : Platform) (cfg : Settings) (p : Principal) (attachment_id : Text)
    (w : World) (x : Result (Option (Text × ℕ)) × World) : Type 0 where
  refused :
      (e : AppError)
      → e ≢ validation_failed file_type_not_allowed
      → x ≡ (err e, w)
      → Finalized os cfg p attachment_id w x
  settled :
      (target : Uuid) (a : Attachment)
      → os.parse_uuid attachment_id ≡ some target
      → select_one (is_own_attachment target p.user.id) w.db.attachments ≡ some a
      → is_ready a.state ≡ true
      → x ≡ (ok none, w)
      → Finalized os cfg p attachment_id w x
  accepted :
      (target : Uuid) (a : Attachment) (o : StoredObject) (mime : Text)
      → os.parse_uuid attachment_id ≡ some target
      → select_one (is_own_attachment target p.user.id) w.db.attachments ≡ some a
      → Observed cfg w a o mime
      → x ≡ (ok (some (mime, length o.content)), finalized w a mime (length o.content))
      → Finalized os cfg p attachment_id w x

-- An upload ends in one of three ways. The answer is ready with a type and a size only if the row is
-- the caller's own, and its object is there, not empty, within the limit and led by a signature of
-- that type; the row is then committed with what was observed, and nothing else is changed. One that was
-- ready before is left alone, and whatever is refused leaves the whole state as it is. No content is
-- ever refused because its type is not allowed, and no object is deleted.
pub finalize_upload-Finalized :
    (os : Platform) (cfg : Settings) (p : Principal) (attachment_id : Text) (w : World)
    → Finalized os cfg p attachment_id w (finalize_upload os cfg p attachment_id w)
unfolding finalize_upload validate settle commit
finalize_upload-Finalized os cfg p attachment_id w =
    elim (Option-cases (os.parse_uuid attachment_id)) [
      | inl bad ↦ rw bad (refused (validation_failed invalid_attachment) (λ h. cc) refl)
      | inr (target, parsed) ↦
          elim (Option-cases (select_one (is_own_attachment target p.user.id) w.db.attachments)) [
            | inl missing ↦ rw (parsed, missing) (refused not_visible (λ h. cc) refl)
            | inr (a, owned) ↦ elim (Bool-cases (is_ready a.state)) [
              | inl done ↦ rw (parsed, owned, done) (settled target a parsed owned done refl)
              | inr open_yet ↦ elim (probe_object-Probed cfg a.storage_key w) [
                | failed e other h ↦ rw (parsed, owned, open_yet, h) (refused e other refl)
                | found o mime stored filled fits s h ↦
                    rw (parsed, owned, open_yet, h)
                      (accepted target a o mime parsed owned
                        (record { stored = stored; filled = filled; fits = fits; signed = s }) refl)
              ]
            ]
          ]
    ]
