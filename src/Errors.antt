-- ===== src/Errors.antt =====
-- backend/app/core/errors.py: the exceptions of a request as values, and the status of each answer.
use runnerup_chat.Base.{ℕ, ◌≡◌, refl, ◌⊎◌, inl, inr}

-- The machine-readable details that the services pass; `plain` is the class's own `code`.
pub data Detail : Type 0 where
  plain : Detail
  empty_message message_too_long too_many_attachments invalid_client_msg_id : Detail
  invalid_reply_target invalid_attachments edit_window_expired query_too_short : Detail
  invalid_emoji cannot_message_self invalid_title public_requires_slug : Detail
  cannot_grant_owner member_limit_reached user_is_banned : Detail
  cannot_grant_equal_or_higher_role cannot_modify_peer_or_superior : Detail
  file_too_large file_type_not_allowed invalid_conversation invalid_attachment : Detail
  verification_failed invalid_phone reauthentication_required invalid_device_id : Detail
  invalid_reason invalid_subject invalid_user cannot_block_self invalid_report : Detail
  cannot_action_peer_or_superior bad_origin csrf_failed : Detail
  invalid_user_id invalid_member invalid_message : Detail

-- The `reason` of `RefreshRejected` (services/sessions.py).
pub data RefreshReason : Type 0 where
  unknown_token reuse_detected revoked expired account_unavailable : RefreshReason

-- The last seven are not of errors.py: `RefreshRejected`, a constraint that the database refuses, the
-- exception of `next_conversation_seq`, Python's own `TypeError`, the `RuntimeError`
-- of sms.py, what the client of the object storage raises, and what SQLAlchemy raises under asyncio where an
-- attribute of an expired object is read.
pub data AppError : Type 0 where
  not_authenticated permission_denied validation_failed : Detail → AppError
  not_visible account_unavailable : AppError
  rate_limited : ℕ → AppError
  refresh_rejected : RefreshReason → AppError
  integrity_error no_data_found type_error runtime_error storage_error : AppError
  missing_greenlet : AppError

-- An exception that is no `AppError` ends in the 500 answer of the middleware in main.py.
unfoldable pub status_code : AppError → ℕ
status_code (not_authenticated d) = 401
status_code (permission_denied d) = 403
status_code (validation_failed d) = 422
status_code not_visible = 404
status_code account_unavailable = 403
status_code (rate_limited n) = 429
status_code (refresh_rejected r) = 500
status_code integrity_error = 500
status_code no_data_found = 500
status_code type_error = 500
status_code runtime_error = 500
status_code storage_error = 500
status_code missing_greenlet = 500

pub data Result {ℓ} (A : Type ℓ) : Type ℓ where
  ok : A → Result A
  err : AppError → Result A

pub Result-cases {ℓ} :
    {A : Type ℓ} (r : Result A) → ((a : A) × (r ≡ ok a)) ⊎ ((e : AppError) × (r ≡ err e))
Result-cases (ok a) = inl (a, refl)
Result-cases (err e) = inr (e, refl)
