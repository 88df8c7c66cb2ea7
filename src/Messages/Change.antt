-- ===== src/Messages/Change.antt =====
-- Changes to a message in services/messages.py: editing, deletion and reactions.
use runnerup_chat.Base.{
  ℕ, ◌+◌, Bool, not, ◌&&◌, Option, none, some, [], ◌∷◌, ◌++◌, length, ◌==◌, ltb, is_none,
  select_one, update_rows, delete_rows,
}
use runnerup_chat.Errors.{
  permission_denied, validation_failed, plain, edit_window_expired, invalid_emoji, integrity_error,
}
use runnerup_chat.Config.{seconds}
use runnerup_chat.Models.Accounts.{Uuid, Text, Time}
use runnerup_chat.Models.Chat.{Message, MessageReaction, Payload}
use runnerup_chat.World.{
  Db, Exec, LimitName, Identity, Event, Channel, gets, raise_if, lift, execute, commit, publish,
  ◌>>=◌, ◌>>◌, pure,
}
use runnerup_chat.Authz.{Access, Permission, require, can_modify_message, can_delete_message}
use runnerup_chat.Ratelimit.{enforce}
use runnerup_chat.Texts.{same_text}
use runnerup_chat.Messages.{validate_body, serialize, next_seq, add_event, edit_window_seconds}
use runnerup_chat.Messages.Send.{is_by}

-- Writing an object that the session holds back to its row.
abbrev pub save_message : Message → Db → Db
save_message m d = record d {
  messages = update_rows (λ (r : Message). r.id == m.id) (λ r. m) d.messages;
}

-- The changed object after an edit.
abbrev pub edited : Time → Option Text → Message → Message
edited now body m = record m { body = body; edited_at = some now; edit_count = m.edit_count + 1 }

abbrev keep_edit : Uuid → Message → Db → Db
keep_edit uid m d = record d {
  edits =
      d.edits ++ record { message_id = m.id; previous_body = m.body; edited_by = some uid } ∷ [];
}

unfoldable pub edit_message : Access → Message → Text → (event_id : ℕ) → Exec Message
edit_message access m body event_id = do
  raise_if (not (can_modify_message access m)) (permission_denied plain)
  now ← gets (λ w. w.now)
  raise_if (ltb (m.created_at + seconds edit_window_seconds) now)
      (permission_denied edit_window_expired)
  enforce LimitName.message_edit_user (Identity.known access.user.id)
  new_body ← lift (validate_body (some body) m.kind [])
  let new : Message = edited now new_body m
  execute (λ d. save_message new (keep_edit access.user.id m d))
  seq ← next_seq m.conversation_id
  add_event event_id m.conversation_id seq (Payload.message_edited (serialize new []))
      access.user.id
  commit
  publish (Channel.conv m.conversation_id)
      (Event.message_edited m.conversation_id (serialize new [])) none
  pure new

abbrev pub erased : Time → Uuid → Message → Message
erased now uid m = record m { deleted_at = some now; deleted_by = some uid; body = none }

unfoldable pub delete_message : Access → Message → (event_id : ℕ) → Exec (Unit {0})
delete_message access m event_id = do
  raise_if (not (can_delete_message access m)) (permission_denied plain)
  now ← gets (λ w. w.now)
  execute (save_message (erased now access.user.id m))
  seq ← next_seq m.conversation_id
  add_event event_id m.conversation_id seq
      (Payload.message_deleted m.id (not (is_by access.user.id m))) access.user.id
  commit
  publish (Channel.conv m.conversation_id)
      (Event.message_deleted m.conversation_id m.id (not (is_by access.user.id m))) none

abbrev pub is_reaction : Uuid → Uuid → Text → MessageReaction → Bool
is_reaction mid uid emoji r = r.message_id == mid && r.user_id == uid && same_text r.emoji emoji

-- The primary key of `message_reactions` is what is looked up here. An empty text fails its CHECK.
unfoldable pub toggle_reaction : Access → Message → Text → Exec Bool
toggle_reaction access m emoji = do
  require access Permission.send_message
  raise_if (ltb 16 (length emoji)) (validation_failed invalid_emoji)
  existing ← gets (λ w. select_one (is_reaction m.id access.user.id emoji) w.db.reactions)
  raise_if (is_none existing && length emoji == 0) integrity_error
  execute (λ d. record d {
    reactions = elim existing [
      | some r ↦ delete_rows (is_reaction m.id access.user.id emoji) d.reactions
      | none ↦
          d.reactions ++ record { message_id = m.id; user_id = access.user.id; emoji = emoji } ∷ []
    ];
  })
  commit
  publish (Channel.conv m.conversation_id)
      (Event.reaction_changed m.conversation_id m.id access.user.id emoji (is_none existing)) none
  pure (is_none existing)
