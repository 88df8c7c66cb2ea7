-- ===== src/Models/Chat.antt =====
-- backend/app/db/models.py: conversations, members, messages and what hangs on them. Columns that
-- no modelled operation reads or writes (topic, avatar, thread root and the like) are left out.
use runnerup_chat.Base.{ℕ, Bool, List, Option}
use runnerup_chat.Models.Accounts.{Uuid, Digest, Time, Text}

pub data ConversationKind : Type 0 where
  direct group channel : ConversationKind

pub data Visibility : Type 0 where
  private public : Visibility

pub data MemberRole : Type 0 where
  owner admin moderator member subscriber : MemberRole

pub data MemberState : Type 0 where
  active muted restricted banned left : MemberState

pub data MessageKind : Type 0 where
  text image video audio voice file system : MessageKind

pub data PreviewPolicy : Type 0 where
  show_preview hide_preview mentions_only muted : PreviewPolicy

pub record Conversation : Type 0 where
  pub id : Uuid
  pub kind : ConversationKind
  pub visibility : Visibility
  pub slug : Option Text
  pub title : Option Text
  pub created_by : Option Uuid
  pub last_seq : ℕ
  pub send_policy : MemberRole
  pub invite_policy : MemberRole
  pub pin_policy : MemberRole
  pub edit_info_policy : MemberRole
  pub member_limit : ℕ
  pub is_archived : Bool
  pub updated_at : Time
  pub deleted_at : Option Time

pub record DirectConversationKey : Type 0 where
  pub conversation_id : Uuid
  pub user_lo : Uuid
  pub user_hi : Uuid

pub record ConversationMember : Type 0 where
  pub conversation_id : Uuid
  pub user_id : Uuid
  pub role : MemberRole
  pub state : MemberState
  pub muted_until : Option Time
  pub restricted_until : Option Time
  pub last_read_seq : ℕ
  pub notify_policy : PreviewPolicy
  pub invited_by : Option Uuid
  pub left_at : Option Time

pub record Message : Type 0 where
  pub id : Uuid
  pub conversation_id : Uuid
  pub seq : ℕ
  pub sender_id : Option Uuid
  pub kind : MessageKind
  pub body : Option Text
  pub client_msg_id : Uuid
  pub reply_to_id : Option Uuid
  pub edited_at : Option Time
  pub edit_count : ℕ
  pub deleted_at : Option Time
  pub deleted_by : Option Uuid
  pub created_at : Time

pub record MessageReaction : Type 0 where
  pub message_id : Uuid
  pub user_id : Uuid
  pub emoji : Text

pub record MessageMention : Type 0 where
  pub message_id : Uuid
  pub user_id : Uuid

pub record MessageEdit : Type 0 where
  pub message_id : Uuid
  pub previous_body : Option Text
  pub edited_by : Option Uuid

pub data AttachmentState : Type 0 where
  pending scanning ready rejected : AttachmentState

pub record Attachment : Type 0 where
  pub id : Uuid
  pub owner_id : Uuid
  pub conversation_id : Option Uuid
  pub message_id : Option Uuid
  pub storage_key : Text
  pub display_name : Text
  pub byte_size : ℕ
  pub detected_mime : Text
  pub declared_mime : Option Text
  pub state : AttachmentState
  pub scan_verdict : Option Text
  pub width : Option ℕ
  pub height : Option ℕ
  pub duration_ms : Option ℕ
  pub created_at : Time
  pub finalized_at : Option Time

pub record InviteLink : Type 0 where
  pub id : Uuid
  pub conversation_id : Uuid
  pub token_hash : Digest
  pub created_by : Option Uuid
  pub max_uses : Option ℕ
  pub use_count : ℕ
  pub requires_approval : Bool
  pub expires_at : Option Time
  pub revoked_at : Option Time

-- What `_serialize` (services/messages.py) keeps of an attachment and of a message.
pub record AttachmentInfo : Type 0 where
  pub id : Uuid
  pub name : Text
  pub size : ℕ
  pub mime : Text
  pub width : Option ℕ
  pub height : Option ℕ
  pub duration_ms : Option ℕ

pub record Serialized : Type 0 where
  pub id : Uuid
  pub seq : ℕ
  pub conversation_id : Uuid
  pub sender_id : Option Uuid
  pub kind : MessageKind
  pub body : Option Text
  pub client_msg_id : Uuid
  pub reply_to_id : Option Uuid
  pub edited_at : Option Time
  pub deleted : Bool
  pub created_at : Time
  pub attachments : List AttachmentInfo

-- The payload of an event row: a serialized message, or the notice of a deletion.
pub data Payload : Type 0 where
  message_created message_edited : Serialized → Payload
  message_deleted : Uuid → Bool → Payload

pub record ConversationEvent : Type 0 where
  pub id : ℕ
  pub conversation_id : Uuid
  pub seq : ℕ
  pub payload : Payload
  pub actor_id : Option Uuid
  pub created_at : Time
