-- ===== src/Routes.antt =====
-- backend/app/api/v1/conversations.py: each route reads the ids of its path, asks who may, and calls the
-- services. A payload is one that its schema has let through; the ids of a reply and of attachments are
-- taken as uuids.
pub mod Hidden
mod Tests
use runnerup_chat.Base.{ℕ, Bool, Option, none, List, [], ◌∷◌}
use runnerup_chat.Errors.{
  Detail, validation_failed, invalid_conversation, invalid_user_id, invalid_member, invalid_message,
}
use runnerup_chat.Security.{Platform}
use runnerup_chat.Models.Accounts.{Uuid, Text}
use runnerup_chat.Models.Chat.{
  Conversation, ConversationKind, Visibility, MessageKind, Serialized, ConversationEvent,
}
use runnerup_chat.World.{◌>>=◌, ◌>>◌, Db, Exec, pure, or_raise}
use runnerup_chat.Authz.{resolve_access, resolve_message_access}
use runnerup_chat.Messages.{serialize}
use runnerup_chat.Messages.Send.{send_message}
use runnerup_chat.Messages.Change.{edit_message, delete_message, toggle_reaction}
use runnerup_chat.Messages.Read.{list_messages, mark_read, sync_events}
use runnerup_chat.Messages.Search.{search_messages}
use runnerup_chat.Conversations.{create_invite, redeem_invite}
use runnerup_chat.Conversations.Create.{get_or_create_direct}
use runnerup_chat.Conversations.Groups.{ConversationSummary, list_for_user, create_group}
use runnerup_chat.Deps.{Principal}

unfoldable pub list_conversations : Principal → Exec (List ConversationSummary)
list_conversations p = list_for_user p.user 100

unfoldable pub sync : Principal → (after : ℕ) → Exec (List ConversationEvent × ℕ)
sync p after = sync_events p.user after 200

module _ (os : Platform) where
  -- `_uuid`
  unfoldable pub as_uuid : Text → Detail → Exec Uuid
  as_uuid value detail = or_raise (os.parse_uuid value) (validation_failed detail)

  unfoldable pub as_uuids : List Text → Exec (List Uuid)
  as_uuids [] = pure []
  as_uuids (t ∷ ts) = do i ← as_uuid t invalid_member; rest ← as_uuids ts; pure (i ∷ rest)

  unfoldable pub create_direct :
      Principal → (user_id : Text) → (cid : Uuid) → Exec (Option Conversation)
  create_direct p user_id cid = do
    other ← as_uuid user_id invalid_user_id
    get_or_create_direct p.user other cid

  unfoldable pub create_conversation :
      Principal
      → (title : Text) → ConversationKind
      → Visibility
      → (slug : Option Text) → List Text
      → (cid : Uuid) → Exec Conversation
  create_conversation p title kind visibility slug member_ids cid = do
    members ← as_uuids member_ids
    create_group p.user title kind visibility slug members cid

  unfoldable pub get_messages :
      Principal
      → (conversation_id : Text) → (before after : Option ℕ) → (limit : ℕ) → Exec (List Serialized)
  get_messages p conversation_id before after limit = do
    cid ← as_uuid conversation_id invalid_conversation
    access ← resolve_access p.user cid
    list_messages access before after limit

  unfoldable pub post_message :
      (lower : Text → Text)
      → (others : Db → Db) → Principal
      → (conversation_id client_msg_id : Text) → (body : Option Text) → MessageKind
      → (reply_to_id : Option Uuid) → (attachment_ids : List Uuid)
      → (message_id : Uuid) (event_id : ℕ) → Exec (Serialized × Bool)
  post_message lower others p conversation_id client_msg_id body kind reply_to_id attachment_ids
        message_id event_id =
      do
        cid ← as_uuid conversation_id invalid_conversation
        access ← resolve_access p.user cid
        result ←
            send_message lower others os access client_msg_id body kind reply_to_id attachment_ids
              none message_id event_id
        pure (serialize result.message [], result.created)

  unfoldable pub patch_message :
      Principal → (message_id body : Text) → (event_id : ℕ) → Exec Serialized
  patch_message p message_id body event_id = do
    mid ← as_uuid message_id invalid_message
    found ← resolve_message_access p.user mid
    updated ← edit_message found.1 found.0 body event_id
    pure (serialize updated [])

  unfoldable pub remove_message : Principal → (message_id : Text) → (event_id : ℕ) → Exec (Unit {0})
  remove_message p message_id event_id = do
    mid ← as_uuid message_id invalid_message
    found ← resolve_message_access p.user mid
    delete_message found.1 found.0 event_id

  unfoldable pub post_reaction : Principal → (message_id emoji : Text) → Exec Bool
  post_reaction p message_id emoji = do
    mid ← as_uuid message_id invalid_message
    found ← resolve_message_access p.user mid
    toggle_reaction found.1 found.0 emoji

  unfoldable pub post_read :
      Principal → (conversation_id : Text) → (up_to_seq : ℕ) → Exec (Unit {0})
  post_read p conversation_id up_to_seq = do
    cid ← as_uuid conversation_id invalid_conversation
    access ← resolve_access p.user cid
    mark_read access up_to_seq

  unfoldable pub post_invite :
      Principal
      → (conversation_id : Text) → (max_uses expires_in_seconds : Option ℕ)
      → (requires_approval : Bool) → (invite_id : Uuid) (token : Text) → Exec Text
  post_invite p conversation_id max_uses expires_in_seconds requires_approval invite_id token = do
    cid ← as_uuid conversation_id invalid_conversation
    access ← resolve_access p.user cid
    create_invite os access max_uses expires_in_seconds requires_approval invite_id token

  unfoldable pub post_redeem : Principal → (token : Text) → Exec Conversation
  post_redeem p token = redeem_invite os p.user token

unfoldable pub search :
    (fits : Text → Option Text → Bool)
    → Principal
    → (q : Text) → (conversation_id : Option Uuid) → Exec (List Serialized)
search fits p q conversation_id = search_messages fits p.user q conversation_id 30
