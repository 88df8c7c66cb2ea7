-- ===== src/Storage/Uploads.antt =====
-- backend/app/api/v1/uploads.py. A payload is one that its schema has let through.
use runnerup_chat.Base.{
  ℕ, Bool, true, false, not, ◌&&◌, ◌==◌, Option, none, some, [], ◌∷◌, ◌++◌, select_one, update_rows,
  if◌then◌else◌,
}
use runnerup_chat.Errors.{
  validation_failed, not_visible, invalid_conversation, invalid_attachment, file_type_not_allowed,
}
use runnerup_chat.Texts.{codes, same_text}
use runnerup_chat.Config.{Settings}
use runnerup_chat.Security.{Platform}
use runnerup_chat.Models.Accounts.{Uuid, Text, Time}
use runnerup_chat.Models.Chat.{Attachment, AttachmentState}
use runnerup_chat.World.{
  Exec, LimitName, Identity, pure, raise, gets, or_raise, raise_if, execute, commit, ◌>>=◌, ◌>>◌,
}
use runnerup_chat.Authz.{Permission, resolve_access, require}
use runnerup_chat.Ratelimit.{enforce}
use runnerup_chat.Deps.{Principal}
use runnerup_chat.Storage.{
  UploadGrant, Probe, create_upload_grant, sanitize_filename, probe_object, delete_object,
  signed_download_url,
}

pub record UploadRequest : Type 0 where
  pub conversation_id : Text
  pub filename : Text
  pub mime : Text
  pub size : ℕ

unfoldable pub is_ready : AttachmentState → Bool
is_ready AttachmentState.ready = true
is_ready AttachmentState.pending = false
is_ready AttachmentState.scanning = false
is_ready AttachmentState.rejected = false

-- A write to the fields of one attachment.
abbrev pub modify_attachment : Uuid → (Attachment → Attachment) → Exec (Unit {0})
modify_attachment i f =
    execute
      λ d. record d { attachments = update_rows (λ (a : Attachment). a.id == i) f d.attachments }

abbrev pub reject : Attachment → Attachment
reject a = record a {
  state = AttachmentState.rejected;
  scan_verdict = some (codes "unrecognized_content");
}

-- `f"declared_{declared}_actual_{detected}"`, where the two differ.
abbrev pub verdict : Option Text → Text → Option Text → Option Text
verdict none detected before = some (codes "declared_None_actual_" ++ detected)
verdict (some declared) detected before =
    if same_text declared detected
    then before
    else some (codes "declared_" ++ declared ++ codes "_actual_" ++ detected)

abbrev pub finalize : Text → ℕ → Time → Attachment → Attachment
finalize mime size now a = record a {
  scan_verdict = verdict a.declared_mime mime a.scan_verdict;
  byte_size = size;
  detected_mime = mime;
  state = AttachmentState.ready;
  finalized_at = some now;
}

abbrev pub is_own_attachment : Uuid → Uuid → Attachment → Bool
is_own_attachment target uid a = a.id == target && a.owner_id == uid

module _ (os : Platform) (cfg : Settings) where
  unfoldable pub request_upload :
      Principal → UploadRequest → (attachment_id drawn : Uuid) → Exec UploadGrant
  request_upload p payload attachment_id drawn = do
    conversation_id ←
        or_raise (os.parse_uuid payload.conversation_id) (validation_failed invalid_conversation)
    access ← resolve_access p.user conversation_id
    require access Permission.send_message
    enforce LimitName.upload_init_user (Identity.known p.user.id)
    grant ←
        create_upload_grant os cfg p.user.id payload.filename payload.mime payload.size
          attachment_id drawn
    now ← gets (λ w. w.now)
    execute (λ d. record d {
      attachments =
          d.attachments
          ++ record {
            id = grant.attachment_id;
            owner_id = p.user.id;
            conversation_id = some conversation_id;
            message_id = none;
            storage_key = grant.storage_key;
            display_name = sanitize_filename os payload.filename;
            byte_size = payload.size;
            detected_mime = codes "application/octet-stream";
            declared_mime = some payload.mime;
            state = AttachmentState.pending;
            scan_verdict = none;
            width = none;
            height = none;
            duration_ms = none;
            created_at = now;
            finalized_at = none;
          }
            ∷ [];
    })
    commit
    pure grant

  -- What follows the probe.
  unfoldable pub settle : Attachment → Probe → Exec (Option (Text × ℕ))
  settle a probe = elim probe.detected_mime [
    | none ↦ (do
      modify_attachment a.id reject
      commit
      delete_object a.storage_key
      raise (validation_failed file_type_not_allowed))
    | some mime ↦ (do
      now ← gets (λ w. w.now)
      modify_attachment a.id (finalize mime probe.byte_size now)
      commit
      pure (some (mime, probe.byte_size)))
  ]

  -- The answer to an upload that is ready already has no type and no size.
  unfoldable pub validate : (ready : Bool) → Attachment → Exec (Option (Text × ℕ))
  validate true a = pure none
  validate false a = do probe ← probe_object cfg a.storage_key; settle a probe

  unfoldable pub finalize_upload : Principal → (attachment_id : Text) → Exec (Option (Text × ℕ))
  finalize_upload p attachment_id = do
    target ← or_raise (os.parse_uuid attachment_id) (validation_failed invalid_attachment)
    a ←
        or_raise (← gets (λ w. select_one (is_own_attachment target p.user.id) w.db.attachments))
          not_visible
    validate (is_ready a.state) a

  -- The check of the caller: an upload outside every conversation is its owner's.
  unfoldable pub check_reader_in : Principal → Attachment → Option Uuid → Exec (Unit {0})
  check_reader_in p a none = raise_if (not (a.owner_id == p.user.id)) not_visible
  check_reader_in p a (some cid) = do
    access ← resolve_access p.user cid
    require access Permission.read_messages

  unfoldable pub check_reader : Principal → Attachment → Exec (Unit {0})
  check_reader p a = check_reader_in p a a.conversation_id

  unfoldable pub download_url : Principal → (attachment_id : Text) → Exec (Text × Attachment)
  download_url p attachment_id = do
    target ← or_raise (os.parse_uuid attachment_id) (validation_failed invalid_attachment)
    a ←
        or_raise (← gets (λ w. select_one (λ (a : Attachment). a.id == target) w.db.attachments))
          not_visible
    raise_if (not (is_ready a.state)) not_visible
    check_reader p a
    url ← signed_download_url os cfg a.storage_key a.display_name
    pure (url, a)
