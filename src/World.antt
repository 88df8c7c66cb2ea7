-- ===== src/World.antt =====
-- The state that a request works on: the tables as the open transaction sees them and as they were
-- last committed (backend/app/db/session.py), the keys of Redis (backend/app/core/redis.py), what
-- was published, the objects in storage, and the clock, which stands still while one request is handled. A handler is a
-- function of that state that returns or raises; what Redis and a commit wrote outlives a raise.
use runnerup_chat.Base.{ℕ, Bool, Option, none, some, List, [], ◌∷◌, ◌++◌, if◌then◌else◌}
use runnerup_chat.Errors.{AppError, Result, ok, err}
use runnerup_chat.Models.Accounts.{
  Uuid, Time, Text, User, OtpChallenge, UserDevice, UserSession, RevokeReason,
}
use runnerup_chat.Models.Chat.{
  Conversation, DirectConversationKey, ConversationMember, Message, MessageReaction, MessageMention,
  MessageEdit, Attachment, InviteLink, Serialized, ConversationEvent,
}
use runnerup_chat.Models.Safety.{BlockedUser, Report, AuditLog, SecurityEvent}

pub record Db : Type 0 where
  pub users : List User
  pub challenges : List OtpChallenge
  pub devices : List UserDevice
  pub sessions : List UserSession
  pub conversations : List Conversation
  pub direct_keys : List DirectConversationKey
  pub members : List ConversationMember
  pub messages : List Message
  pub reactions : List MessageReaction
  pub mentions : List MessageMention
  pub edits : List MessageEdit
  pub attachments : List Attachment
  pub invites : List InviteLink
  pub blocks : List BlockedUser
  pub reports : List Report
  pub events : List ConversationEvent
  pub audit_logs : List AuditLog
  pub security_events : List SecurityEvent

-- The named budgets of core/ratelimit.py.
pub data LimitName : Type 0 where
  otp_request_phone otp_request_ip otp_verify_phone otp_verify_ip auth_refresh_ip : LimitName
  message_send_user message_send_conv message_edit_user search_user upload_init_user : LimitName
  conversation_create_user invite_create_user report_create_user : LimitName
  ws_event_connection ws_connect_user : LimitName

-- What a budget is scoped to: a user, a conversation, a connection, an address or the digest of a
-- number. `unknown` is the text that the refresh route uses where it sees no address.
pub data Identity : Type 0 where
  known : ℕ → Identity
  unknown : Identity

-- A member of a sorted set is the text f"{now_ms}-{i}", kept as its two numbers.
pub record Entry : Type 0 where
  pub stamp : ℕ
  pub index : ℕ
  pub score : ℕ

-- A sorted set with the moment, in milliseconds, at which its key expires.
pub record Slot : Type 0 where
  pub entries : List Entry
  pub expires_at : ℕ

-- The key f"rl:{name}:{identity}" and what it holds.
pub record Bucket : Type 0 where
  pub name : LimitName
  pub identity : Identity
  pub slot : Slot

-- The key `revoked:{session_id}` with the moment at which it expires.
pub record RevokedKey : Type 0 where
  pub session_id : Uuid
  pub expires_at : Time

-- What is published: the events of services/messages.py, of ws/router.py and of services/sessions.py.
pub data Event : Type 0 where
  message_created message_edited : Uuid → Serialized → Event
  message_deleted : Uuid → Uuid → Bool → Event
  receipt_read : Uuid → Uuid → ℕ → Event
  reaction_changed : Uuid → Uuid → Uuid → Text → Bool → Event
  session_created : Uuid → Event
  session_revoked : Uuid → List Uuid → RevokeReason → Event
  typing : Text → Text → Bool → Event

-- The channel of a conversation, of a user, and of a conversation whose id a client has spelled.
pub data Channel : Type 0 where
  conv user : Uuid → Channel
  spelled : Text → Channel

pub record Publication : Type 0 where
  pub channel : Channel
  pub event : Event
  pub origin : Option Uuid

-- An object in the bucket of the object storage.
pub record StoredObject : Type 0 where
  pub key : Text
  pub content : List ℕ

-- A ticket of backend/app/ws/router.py: the key `wsticket:{ticket}`, what it holds, when it expires.
pub record Ticket : Type 0 where
  pub ticket : Text
  pub user_id : Uuid
  pub session_id : Uuid
  pub device_id : Uuid
  pub expires_at : Time

pub record World : Type 0 where
  pub db : Db
  pub saved : Db
  pub buckets : List Bucket
  pub revoked : List RevokedKey
  pub published : List Publication
  pub objects : List StoredObject
  pub tickets : List Ticket
  pub now : Time

abbrev pub Exec {ℓ} : Type ℓ → Type ℓ
Exec A = World → Result A × World

module _ {ℓ} {A : Type ℓ} where
  abbrev pub pure : A → Exec A
  pure a w = (ok a, w)

  abbrev pub raise : AppError → Exec A
  raise e w = (err e, w)

  abbrev pub gets : (World → A) → Exec A
  gets f w = (ok (f w), w)

  abbrev pub or_raise : Option A → AppError → Exec A
  or_raise o e w = (elim o [ none ↦ err e | some a ↦ ok a ], w)

  abbrev pub lift : Result A → Exec A
  lift r w = (r, w)

-- What follows a step that has ended.
abbrev pub resume {ℓ κ} :
    {A : Type ℓ} {B : Type κ} → Result A × World → (A → Exec B) → Result B × World
resume (ok a, w) f = f a w
resume (err e, w) f = (err e, w)

infixl 5 ◌>>=◌ ◌>>◌
abbrev pub ◌>>=◌ {ℓ κ} : {A : Type ℓ} {B : Type κ} → Exec A → (A → Exec B) → Exec B
◌>>=◌ m f w = resume (m w) f

abbrev pub ◌>>◌ {ℓ κ} : {A : Type ℓ} {B : Type κ} → Exec A → Exec B → Exec B
◌>>◌ m k w = resume (m w) (λ _. k)

abbrev pub raise_if : Bool → AppError → Exec (Unit {0})
raise_if c e w = (if c then err e else ok tt, w)

-- `if c: ...` around a statement.
abbrev pub when : Bool → Exec (Unit {0}) → Exec (Unit {0})
when c m = if c then m else pure tt

-- A statement on the tables, in the open transaction.
abbrev pub execute : (Db → Db) → Exec (Unit {0})
execute f w = (ok tt, record w { db = f w.db })

unfoldable pub commit : Exec (Unit {0})
commit w = (ok tt, record w { saved = w.db })

unfoldable pub rollback : Exec (Unit {0})
rollback w = (ok tt, record w { db = w.saved })

-- `publish_to_conversation` and `publish_to_user` of ws/manager.py.
unfoldable pub publish : Channel → Event → Option Uuid → Exec (Unit {0})
publish c e o w = (
  ok tt,
  record w { published = w.published ++ record { channel = c; event = e; origin = o } ∷ [] },
)

-- services/audit.py
unfoldable pub record_audit : AuditLog → Exec (Unit {0})
record_audit a = execute λ d. record d { audit_logs = d.audit_logs ++ a ∷ [] }

unfoldable pub record_security : SecurityEvent → Exec (Unit {0})
record_security s = execute λ d. record d { security_events = d.security_events ++ s ∷ [] }

-- `get_db`: a request that raises is rolled back, and what was not committed at its end is dropped
-- when the session closes.
unfoldable pub request {ℓ} : {A : Type ℓ} → Exec A → Exec A
request m w = let (r, w') = m w in (r, record w' { db = w'.saved })
