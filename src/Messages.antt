-- ===== src/Messages.antt =====
-- backend/app/services/messages.py: what its operations share (bodies, mentions, sequence numbers,
-- serialized messages); the operations are in the children. Ids of new rows are drawn anew by each
-- call and given as arguments; `lower` is lower case, of Python and of the database.
pub mod Body
pub mod Send
pub mod Insert
pub mod Outcome
pub mod Resend
pub mod Change
pub mod Read
pub mod Search
pub mod Sorting
pub mod Replay
pub mod Sequence
pub mod Pages
pub mod Trail
mod Tests
use mathlib.Core.Option
use runnerup_chat.Base.{
  ℕ, ◌+◌, ◌*◌, Bool, true, false, not, ◌&&◌, ◌||◌, Option, none, some, List, [], ◌∷◌, ◌++◌, map,
  length, ltb, leb, ◌==◌, if◌then◌else◌, is_none, is_some, select_one, select_all, update_rows,
}
use runnerup_chat.Errors.{
  Result, ok, err, validation_failed, empty_message, message_too_long, too_many_attachments,
  no_data_found,
}
use runnerup_chat.Models.Accounts.{Uuid, Text, User, Time}
use runnerup_chat.Models.Chat.{
  Conversation, ConversationMember, Message, MessageKind, Attachment, AttachmentInfo, Serialized,
  Payload,
}
use runnerup_chat.Texts.{any_of, is_space, same_text}
use runnerup_chat.World.{◌>>=◌, ◌>>◌, Db, Exec, gets, or_raise, execute, pure}
use runnerup_chat.Authz.{is_live, is_member_row, is_banned}

abbrev pub max_body_chars : ℕ
max_body_chars = 8192

abbrev pub max_attachments : ℕ
max_attachments = 10

abbrev pub edit_window_seconds : ℕ
edit_window_seconds = 48 * 3600

abbrev pub is_text : MessageKind → Bool
is_text MessageKind.text = true
is_text MessageKind.image = false
is_text MessageKind.video = false
is_text MessageKind.audio = false
is_text MessageKind.voice = false
is_text MessageKind.file = false
is_text MessageKind.system = false

-- `not body.strip()`
unfoldable pub is_all_space : Text → Bool
is_all_space [] = true
is_all_space (c ∷ cs) = is_space c && is_all_space cs

-- `not body or not body.strip()`
unfoldable pub is_blank : Option Text → Bool
is_blank none = true
is_blank (some b) = is_all_space b

abbrev is_too_long : Option Text → Bool
is_too_long none = false
is_too_long (some b) = ltb max_body_chars (length b)

-- `c in "\t\n" or ord(c) >= 32`
abbrev pub is_printable : ℕ → Bool
is_printable c = c == 9 || c == 10 || leb 32 c

-- The filter, and the two calls of `replace`.
unfoldable pub clean : Text → Text
clean b =
    select_all (λ c. not (c == 0x202d))
      (select_all (λ c. not (c == 0x202e)) (select_all is_printable b))

unfoldable pub validate_body : Option Text → MessageKind → List Uuid → Result (Option Text)
validate_body body kind attachment_ids =
    if is_text kind && is_blank body
    then err (validation_failed empty_message)
    else if is_too_long body
    then err (validation_failed message_too_long)
    else if ltb max_attachments (length attachment_ids)
    then err (validation_failed too_many_attachments)
    else ok (Option.map clean body)

-- `[a-z0-9_]` where case is ignored: the last four are the letters outside ASCII that Python's `re`
-- then counts in.
unfoldable pub is_handle_char : ℕ → Bool
is_handle_char c =
    (leb b'a' c && leb c b'z')
    || (leb b'A' c && leb c b'Z')
    || (leb b'0' c && leb c b'9')
    || any_of (b'_' ∷ 304 ∷ 305 ∷ 383 ∷ 8490 ∷ []) c

-- The handle that is being read, if one is, goes on with a character, or ends before it. One of 32
-- characters is full.
abbrev goes_on : Text → ℕ → Bool
goes_on h c = is_handle_char c && ltb (length h) 32

abbrev next_handle : Option Text → ℕ → Option Text
next_handle none c = if c == b'@' then some [] else none
next_handle (some h) c =
    if goes_on h c then some (h ++ c ∷ []) else if c == b'@' then some [] else none

abbrev full_handle : Text → List Text
full_handle h = if leb 3 (length h) then h ∷ [] else []

abbrev ended_handle : Option Text → ℕ → List Text
ended_handle none c = []
ended_handle (some h) c = if goes_on h c then [] else full_handle h

-- `_MENTION_PATTERN.finditer(body)`
unfoldable pub handles_in : Option Text → Text → List Text
handles_in none [] = []
handles_in (some h) [] = full_handle h
handles_in h (c ∷ cs) = ended_handle h c ++ handles_in (next_handle h c) cs

unfoldable pub is_one_of : Text → List Text → Bool
is_one_of t [] = false
is_one_of t (x ∷ xs) = same_text x t || is_one_of t xs

-- A member of the conversation who has not left and is not banned.
abbrev pub is_present : Uuid → Uuid → ConversationMember → Bool
is_present cid uid m = is_member_row cid uid m && is_none m.left_at && not (is_banned m.state)

unfoldable pub is_mentioned : (Text → Text) → Db → Uuid → List Text → User → Bool
is_mentioned lower db cid handles u =
    elim u.username [ none ↦ false | some n ↦ is_one_of (lower n) (map lower handles) ]
    && is_some (select_one (is_present cid u.id) db.members)

unfoldable pub resolve_mentions : (Text → Text) → Uuid → Option Text → Db → List Uuid
resolve_mentions lower cid none db = []
resolve_mentions lower cid (some b) db =
    map (λ u. u.id) (select_all (is_mentioned lower db cid (handles_in none b)) db.users)

abbrev pub attachment_info : Attachment → AttachmentInfo
attachment_info a = record {
  id = a.id;
  name = a.display_name;
  size = a.byte_size;
  mime = a.detected_mime;
  width = a.width;
  height = a.height;
  duration_ms = a.duration_ms;
}

-- `_serialize`
unfoldable pub serialize : Message → List Attachment → Serialized
serialize m attachments = record {
  id = m.id;
  seq = m.seq;
  conversation_id = m.conversation_id;
  sender_id = m.sender_id;
  kind = m.kind;
  body = m.body;
  client_msg_id = m.client_msg_id;
  reply_to_id = m.reply_to_id;
  edited_at = m.edited_at;
  deleted = is_some m.deleted_at;
  created_at = m.created_at;
  attachments = map attachment_info attachments;
}

abbrev pub bump : Time → Conversation → Conversation
bump now c = record c { last_seq = c.last_seq + 1; updated_at = now }

-- The function `next_conversation_seq` of backend/migrations/0001_init.sql, with the trigger that
-- dates the row.
unfoldable pub next_seq : Uuid → Exec ℕ
next_seq cid = do
  c ← or_raise (← gets (λ w. select_one (is_live cid) w.db.conversations)) no_data_found
  now ← gets (λ w. w.now)
  execute (λ d. record d { conversations = update_rows (is_live cid) (bump now) d.conversations })
  pure (c.last_seq + 1)

-- `db.add(ConversationEvent(...))`
unfoldable pub add_event : (event_id : ℕ) → Uuid → ℕ → Payload → Uuid → Exec (Unit {0})
add_event event_id cid seq payload actor = do
  now ← gets (λ w. w.now)
  execute (λ d. record d {
    events =
        d.events
        ++ record {
          id = event_id;
          conversation_id = cid;
          seq = seq;
          payload = payload;
          actor_id = some actor;
          created_at = now;
        }
          ∷ [];
  })
