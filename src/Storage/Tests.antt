-- ===== src/Storage/Tests.antt =====
-- Runs of services/storage.py and api/v1/uploads.py.
use runnerup_chat.Base.{false, length, ◌≤◌, All}
use runnerup_chat.Texts.{codes}
use runnerup_chat.Storage.{sanitize_filename}
use runnerup_chat.Storage.Names.{is_harmful, sanitized_name_is_safe}
use runnerup_chat.Base.{select_one, ◌==◌, some, true, ◌≡◌, refl, [], ◌∷◌}
use runnerup_chat.Storage.{signed_download_url}
use runnerup_chat.Storage.Finalize.{Finalized, finalize_upload-Finalized}
use runnerup_chat.Storage.Uploads.{
  finalize_upload, download_url, check_reader, check_reader_in, is_ready,
}
use runnerup_chat.Authz.{
  resolve_access, find_conversation, grants_in, base_grants, find_member, block_grants,
  archive_grants, member_grants,
}
use runnerup_chat.Models.Accounts.{Uuid}
use runnerup_chat.Models.Chat.{Attachment, AttachmentState}
use runnerup_chat.World.{World}
use runnerup_chat.Storage.Downloads.{Readable, download_granted}
use runnerup_chat.Samples.{by_bob, photo, sample_platform, sample_settings, by_alice, busy}

finalize_upload-Finalized_example :
    Finalized sample_platform sample_settings by_alice
      (90 ∷ [])
      busy
      (finalize_upload sample_platform sample_settings by_alice (90 ∷ []) busy)
finalize_upload-Finalized_example =
    finalize_upload-Finalized sample_platform sample_settings by_alice (90 ∷ []) busy

-- The photo, once it is ready.
abbrev with_photo : World
with_photo = record busy {
  db = record busy.db { attachments = record photo { state = AttachmentState.ready } ∷ [] };
}

download_granted_example :
    ((target : Uuid) × (sample_platform.parse_uuid (90 ∷ []) ≡ some target)
      × (select_one (λ (x : Attachment). x.id == target) with_photo.db.attachments
          ≡ some (record photo { state = AttachmentState.ready })))
    × (is_ready AttachmentState.ready ≡ true)
    × Readable by_bob (record photo { state = AttachmentState.ready }) with_photo
    × (with_photo ≡ with_photo)
unfolding download_url check_reader check_reader_in signed_download_url select_one is_ready
    resolve_access find_conversation grants_in base_grants find_member block_grants archive_grants
    member_grants
download_granted_example =
    download_granted sample_platform sample_settings by_bob (90 ∷ []) with_photo with_photo (5 ∷ [])
      (record photo { state = AttachmentState.ready }) refl

sanitized_name_is_safe_example :
    All (λ c. is_harmful c ≡ false) (sanitize_filename sample_platform (codes "../../etc/passwd"))
    × (1 ≤ length (sanitize_filename sample_platform (codes "../../etc/passwd")))
    × (length (sanitize_filename sample_platform (codes "../../etc/passwd")) ≤ 200)
sanitized_name_is_safe_example =
    sanitized_name_is_safe sample_platform (codes "../../etc/passwd")
      (refl, (refl, (refl, (refl, tt))))
