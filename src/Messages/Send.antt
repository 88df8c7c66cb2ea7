-- ===== src/Messages/Send.antt =====
-- `send_message` of services/messages.py. `others` is what other transactions have committed between
-- the first look for the message and the row lock that `next_conversation_seq` waits for.
use runnerup_chat.Base.{
  ℕ, Bool, true, false, not, ◌&&◌, ◌||◌, Option, none, some, List, [], ◌∷◌, ◌++◌, map, length, ◌==◌,
  if◌then◌else◌, is_none, select_one, select_all, update_rows,
}
use runnerup_chat.Errors.{
  ok, validation_failed, invalid_client_msg_id, invalid_reply_target, invalid_attachments,
  missing_greenlet,
}
use runnerup_chat.Models.Accounts.{Uuid, Text}
use runnerup_chat.Models.Chat.{
  Message, MessageKind, MessageMention, Attachment, AttachmentState, Payload,
}
use runnerup_chat.Security.{Platform}
use runnerup_chat.World.{
  Db, Exec, LimitName, Identity, Event, Channel, gets, or_raise, raise_if, lift, raise, execute,
  commit, rollback, publish, ◌>>=◌, ◌>>◌, pure,
}
use runnerup_chat.Authz.{Access, Permission, require}
use runnerup_chat.Ratelimit.{enforce}
use runnerup_chat.Messages.{validate_body, resolve_mentions, serialize, next_seq, add_event}

pub record SendResult : Type 0 where
  pub message : Message
  pub created : Bool

abbrev pub is_by : Uuid → Message → Bool
is_by uid m = elim m.sender_id [ none ↦ false | some s ↦ s == uid ]

-- The row of an earlier send with the same key.
abbrev pub is_sent : Uuid → Uuid → Uuid → Message → Bool
is_sent cid uid key m = m.conversation_id == cid && is_by uid m && m.client_msg_id == key

-- The two unique constraints of `messages`.
abbrev pub conflicts : Uuid → Uuid → Message → Message → Bool
conflicts uid key m other =
    (other.conversation_id == m.conversation_id && other.seq == m.seq)
    || is_sent m.conversation_id uid key other

abbrev pub is_reply_target : Uuid → Uuid → Message → Bool
is_reply_target cid parent m = m.id == parent && m.conversation_id == cid && is_none m.deleted_at

unfoldable pub check_reply : Uuid → Option Uuid → Exec (Unit {0})
check_reply cid none = pure tt
check_reply cid (some parent) = do
  found ← gets (λ w. select_one (is_reply_target cid parent) w.db.messages)
  raise_if (is_none found) (validation_failed invalid_reply_target)

unfoldable pub is_in : Uuid → List Uuid → Bool
is_in i [] = false
is_in i (x ∷ xs) = x == i || is_in i xs

-- `set(attachment_ids)`
unfoldable pub distinct : List Uuid → List Uuid
distinct [] = []
distinct (x ∷ xs) = if is_in x xs then distinct xs else x ∷ distinct xs

abbrev pub is_ready : AttachmentState → Bool
is_ready AttachmentState.ready = true
is_ready AttachmentState.pending = false
is_ready AttachmentState.scanning = false
is_ready AttachmentState.rejected = false

abbrev pub is_attachable : Uuid → List Uuid → Attachment → Bool
is_attachable uid wanted a =
    is_in a.id wanted && a.owner_id == uid && is_none a.message_id && is_ready a.state

unfoldable pub find_attachments : Uuid → List Uuid → Exec (List Attachment)
find_attachments uid [] = pure []
find_attachments uid (x ∷ xs) = do
  rows ← gets (λ w. select_all (is_attachable uid (x ∷ xs)) w.db.attachments)
  raise_if (not (length rows == length (distinct (x ∷ xs)))) (validation_failed invalid_attachments)
  pure rows

-- Other transactions commit.
abbrev pub meanwhile : (Db → Db) → Exec (Unit {0})
meanwhile others w = (ok tt, record w { db = others w.db; saved = others w.saved })

-- The rows that are changed and added after the flush.
abbrev attach : Message → Attachment → Attachment
attach m a = record a { message_id = some m.id; conversation_id = some m.conversation_id }

abbrev mention_of : Message → Uuid → MessageMention
mention_of m uid = record { message_id = m.id; user_id = uid }

abbrev link_rows : (Text → Text) → Message → List Attachment → Db → Db
link_rows lower m attachments d = record d {
  attachments =
      update_rows (λ (a : Attachment). is_in a.id (map (λ (b : Attachment). b.id) attachments))
        (attach m) d.attachments;
  mentions = d.mentions ++ map (mention_of m) (resolve_mentions lower m.conversation_id m.body d);
}

module _ (lower : Text → Text) where
  -- From the flush that went well to the end.
  unfoldable pub deliver :
      Uuid → Message → List Attachment → Option Uuid → (event_id : ℕ) → Exec SendResult
  deliver uid m attachments origin event_id = do
    execute (link_rows lower m attachments)
    add_event event_id m.conversation_id m.seq (Payload.message_created (serialize m attachments))
        uid
    commit
    publish (Channel.conv m.conversation_id)
        (Event.message_created m.conversation_id (serialize m attachments)) origin
    pure (record { message = m; created = true })

  -- The handler of `IntegrityError`: the rollback expires the objects of the session, so reading
  -- `conversation.id` for the query that follows raises, and that query is never made.
  unfoldable pub recover : Exec SendResult
  recover = do rollback; raise missing_greenlet

  -- `db.add(message)` and the flush.
  unfoldable pub insert_message :
      Uuid → Uuid → Message → List Attachment → Option Uuid → (event_id : ℕ) → Exec SendResult
  insert_message uid key m attachments origin event_id = do
    clash ← gets (λ w. select_one (conflicts uid key m) w.db.messages)
    elim clash [
      | some c ↦ recover
      | none ↦ (do
        execute (λ d. record d { messages = d.messages ++ m ∷ [] })
        deliver uid m attachments origin event_id)
    ]

  module _ (others : Db → Db) where
    -- From the sequence number on.
    unfoldable pub store_message :
        Access
        → (key : Uuid) → (body : Option Text) → MessageKind
        → (reply_to_id : Option Uuid) → (attachments : List Attachment) → (origin : Option Uuid)
        → (message_id : Uuid) (event_id : ℕ) → Exec SendResult
    store_message access key body kind reply_to_id attachments origin message_id event_id = do
      meanwhile others
      seq ← next_seq access.conversation.id
      now ← gets (λ w. w.now)
      let message : Message = record {
        id = message_id;
        conversation_id = access.conversation.id;
        seq = seq;
        sender_id = some access.user.id;
        kind = kind;
        body = body;
        client_msg_id = key;
        reply_to_id = reply_to_id;
        edited_at = none;
        edit_count = 0;
        deleted_at = none;
        deleted_by = none;
        created_at = now;
      }
      insert_message access.user.id key message attachments origin event_id

    -- What is done for a message that was not found.
    unfoldable pub send_new :
        Access
        → (key : Uuid) → (body : Option Text) → MessageKind
        → (reply_to_id : Option Uuid) → (attachment_ids : List Uuid) → (origin : Option Uuid)
        → (message_id : Uuid) (event_id : ℕ) → Exec SendResult
    send_new access key body kind reply_to_id attachment_ids origin message_id event_id = do
      enforce LimitName.message_send_user (Identity.known access.user.id)
      enforce LimitName.message_send_conv (Identity.known access.conversation.id)
      check_reply access.conversation.id reply_to_id
      attachments ← find_attachments access.user.id attachment_ids
      store_message access key body kind reply_to_id attachments origin message_id event_id

    unfoldable pub send_message :
        Platform
        → Access
        → (client_msg_id : Text) → (body : Option Text) → MessageKind
        → (reply_to_id : Option Uuid) → (attachment_ids : List Uuid) → (origin : Option Uuid)
        → (message_id : Uuid) (event_id : ℕ) → Exec SendResult
    send_message os access client_msg_id body kind reply_to_id attachment_ids origin message_id
          event_id =
        do
          require access Permission.send_message
          clean_body ← lift (validate_body body kind attachment_ids)
          key ← or_raise (os.parse_uuid client_msg_id) (validation_failed invalid_client_msg_id)
          existing ←
              gets
                (λ w. select_one (is_sent access.conversation.id access.user.id key) w.db.messages)
          elim existing [
            | some m ↦ pure (record { message = m; created = false })
            | none ↦
                send_new access key clean_body kind reply_to_id attachment_ids origin message_id
                  event_id
          ]
