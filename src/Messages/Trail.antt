-- ===== src/Messages/Trail.antt =====
-- What edits, deletions and reactions of services/messages.py leave behind.
use runnerup_chat.Base.{
  ℕ, ◌+◌, ◌≤◌, ◌≡◌, ◌⊎◌, refl, ◌∙◌, inl, inr, Bool, true, false, not, Option, none, some, [], ◌∷◌,
  ◌++◌, arith, ◌==◌, ltb, length, Bool-cases, Option-cases, update_rows, delete_rows,
  delete_rows-append_new, select_one, select_one-append, ==_refl,
}
use runnerup_chat.Errors.{
  Result, Result-cases, ok, err, AppError, no_data_found, permission_denied, plain,
}
use runnerup_chat.Config.{seconds}
use runnerup_chat.Models.Accounts.{Text, Time}
use runnerup_chat.Models.Chat.{Message, MessageReaction, Conversation, ConversationEvent, Payload}
use runnerup_chat.World.{
  Db, World, Publication, Channel, Event, LimitName, Identity, commit, publish,
}
use runnerup_chat.Authz.{Access, Permission, can_modify_message, can_delete_message, is_live}
use runnerup_chat.Ratelimit.Enforce.{enforce-Enforced, passed, limited}
use runnerup_chat.Texts.Laws.{same_text_refl}
use runnerup_chat.Messages.{next_seq, add_event, validate_body, edit_window_seconds}
use runnerup_chat.Messages.Send.{is_by}
use runnerup_chat.Messages.Change.{
  edit_message, edited, delete_message, erased, toggle_reaction, is_reaction,
}

-- How an edit ends.
pub data Edits (access : Access) (m : Message) (body : Text) (w : World)
    (x : Result Message × World) : Type 0 where
  unchanged :
      (e : AppError)
      → x.0 ≡ err e
      → x.1.saved ≡ w.saved
      → x.1.published ≡ w.published
      → Edits access m body w x
  trailed :
      (new_body : Option Text)
      → can_modify_message access m ≡ true
      → w.now ≤ m.created_at + seconds edit_window_seconds
      → validate_body (some body) m.kind [] ≡ ok new_body
      → x.0 ≡ ok (edited w.now new_body m)
      → x.1.saved ≡ x.1.db
      → x.1.saved.messages
        ≡ update_rows (λ (r : Message). r.id == m.id) (λ r. edited w.now new_body m) w.db.messages
      → x.1.saved.edits
        ≡ w.db.edits
          ++ record { message_id = m.id; previous_body = m.body; edited_by = some access.user.id }
            ∷ []
      → Edits access m body w x

-- An edit either fails, and then nothing is committed and nothing published; or the caller may modify
-- the message, it is at most 48 hours old, the new body is valid, and what is committed has the
-- message with the new body and, as a new row of the trail, the body that it had before.
pub edit_keeps_trail :
    (access : Access) (m : Message) (body : Text) (event_id : ℕ) (w : World)
    → Edits access m body w (edit_message access m body event_id w)
unfolding edit_message next_seq add_event commit publish
edit_keeps_trail access m body event_id w = elim (Bool-cases (can_modify_message access m)) [
  | inr may_not ↦ rw (may_not, edit_message) (unchanged _ refl refl refl)
  | inl may ↦ elim (Bool-cases (ltb (m.created_at + seconds edit_window_seconds) w.now)) [
    | inl late ↦ rw (may, late, edit_message) (unchanged _ refl refl refl)
    | inr timely ↦
        elim (enforce-Enforced LimitName.message_edit_user (Identity.known access.user.id) w) [
          | limited bs n h e ↦ rw (may, timely, e, edit_message) (unchanged _ refl refl refl)
          | passed bs e ↦ elim (Result-cases (validate_body (some body) m.kind [])) [
            | inr (r, bad) ↦ rw (may, timely, e, bad, edit_message) (unchanged r refl refl refl)
            | inl (b, good) ↦
                elim (Option-cases (select_one (is_live m.conversation_id) w.db.conversations)) [
                  | inl gone ↦
                      rw (may, timely, e, good, gone, edit_message)
                        (unchanged no_data_found refl refl refl)
                  | inr (c, row) ↦
                      rw (may, timely, e, good, row, edit_message)
                        (trailed b may (ground arith) good refl refl refl refl)
                ]
          ]
        ]
  ]
]

-- What is published of a deletion, and what stands in the log of events: which message, and whether it was
-- taken away by somebody else than its sender.
abbrev pub deletion_notice : Access → Message → Publication
deletion_notice access m = record {
  channel = Channel.conv m.conversation_id;
  event = Event.message_deleted m.conversation_id m.id (not (is_by access.user.id m));
  origin = none;
}

abbrev pub deletion_event : Access → Message → (event_id seq : ℕ) → Time → ConversationEvent
deletion_event access m event_id seq now = record {
  id = event_id;
  conversation_id = m.conversation_id;
  seq = seq;
  payload = Payload.message_deleted m.id (not (is_by access.user.id m));
  actor_id = some access.user.id;
  created_at = now;
}

-- A deletion is soft: it empties the row of the message. It is refused with permission_denied, without
-- effect, to who may not delete the message; in a conversation that is gone it ends in an error, and nothing is
-- committed and nothing published; else it commits: the row of the message stays, with no body and with who
-- deleted it and when, and every other row of `messages` is as it was; the log of events has one more row, with
-- the next number of the conversation; and one notice is published. This row and this notice say which message
-- it was and whether another than its sender deleted it, and no text. The earlier events and the trail of edits,
-- which hold earlier bodies, stay as they were.
pub delete_erases :
    (access : Access) (m : Message) (event_id : ℕ) (w : World)
    → ((can_delete_message access m ≡ false)
        × (delete_message access m event_id w ≡ (err (permission_denied plain), w)))
      ⊎ ((select_one (is_live m.conversation_id) w.db.conversations ≡ none)
          × ((delete_message access m event_id w).0 ≡ err no_data_found)
          × ((delete_message access m event_id w).1.saved ≡ w.saved)
          × ((delete_message access m event_id w).1.published ≡ w.published))
      ⊎ ((c : Conversation) × (can_delete_message access m ≡ true)
          × (select_one (is_live m.conversation_id) w.db.conversations ≡ some c)
          × ((delete_message access m event_id w).0 ≡ ok tt)
          × ((delete_message access m event_id w).1.saved.messages
              ≡ update_rows
                  (λ (r : Message). r.id == m.id)
                  (λ r. erased w.now access.user.id m)
                  w.db.messages)
          × ((delete_message access m event_id w).1.saved.events
              ≡ w.db.events ++ deletion_event access m event_id (c.last_seq + 1) w.now ∷ [])
          × ((delete_message access m event_id w).1.saved.edits ≡ w.db.edits)
          × ((delete_message access m event_id w).1.published
              ≡ w.published ++ deletion_notice access m ∷ []))
unfolding delete_message next_seq add_event commit publish
delete_erases access m event_id w = elim (Bool-cases (can_delete_message access m)) [
  | inr may_not ↦ inl (may_not, rw (may_not, delete_message) refl)
  | inl may ↦ elim (Option-cases (select_one (is_live m.conversation_id) w.db.conversations)) [
    | inl gone ↦ inr (
        inl (
          gone,
          rw (may, gone, delete_message) refl,
          rw (may, gone, delete_message) refl,
          rw (may, gone, delete_message) refl,
        ))
    | inr (c, row) ↦ inr (
        inr (
          c,
          may,
          row,
          rw (may, row, delete_message) refl,
          rw (may, row, delete_message) refl,
          rw (may, row, delete_message) refl,
          rw (may, row, delete_message) refl,
          rw (may, row, delete_message) refl,
        ))
  ]
]

abbrev reacted : Access → Message → Text → MessageReaction
reacted access m emoji = record { message_id = m.id; user_id = access.user.id; emoji = emoji }

reacted-is_reaction :
    (access : Access) (m : Message) (emoji : Text)
    → is_reaction m.id access.user.id emoji (reacted access m emoji) ≡ true
reacted-is_reaction access m emoji =
    ground (arith, ==_refl m.id, ==_refl access.user.id, same_text_refl emoji)

-- The tables after a first toggle.
abbrev with_reaction : Access → Message → Text → World → Db
with_reaction access m emoji w = record w.db {
  reactions = w.db.reactions ++ reacted access m emoji ∷ [];
}

toggle_on :
    (access : Access) (m : Message) (emoji : Text) (w : World)
    → access.permissions Permission.send_message ≡ true
    → 1 ≤ length emoji
    → length emoji ≤ 16
    → select_one (is_reaction m.id access.user.id emoji) w.db.reactions ≡ none
    → ((toggle_reaction access m emoji w).0 ≡ ok true)
      × ((toggle_reaction access m emoji w).1.db ≡ with_reaction access m emoji w)
unfolding toggle_reaction commit publish
toggle_on access m emoji w may some_char short fresh =
    let small : ltb 16 (length emoji) ≡ false = ground arith in
    let filled : (length emoji == 0) ≡ false = ground arith in
    rw (may, small, fresh, filled) (refl, refl)

toggle_off :
    (access : Access) (m : Message) (emoji : Text) (w : World) (r : MessageReaction)
    → access.permissions Permission.send_message ≡ true
    → length emoji ≤ 16
    → select_one (is_reaction m.id access.user.id emoji) w.db.reactions ≡ some r
    → ((toggle_reaction access m emoji w).0 ≡ ok false)
      × ((toggle_reaction access m emoji w).1.saved.reactions
          ≡ delete_rows (is_reaction m.id access.user.id emoji) w.db.reactions)
unfolding toggle_reaction commit publish
toggle_off access m emoji w r may short found =
    let small : ltb 16 (length emoji) ≡ false = ground arith in rw (may, small, found) (refl, refl)

-- Toggling twice is nothing. Where the user may send, has not reacted so yet, and the emoji has from one
-- to 16 characters, the first call answers True, the second, in the state that the first leaves, answers False,
-- and then the committed table of reactions is the one before both.
pub toggle_twice :
    (access : Access) (m : Message) (emoji : Text) (w : World)
    → access.permissions Permission.send_message ≡ true
    → 1 ≤ length emoji
    → length emoji ≤ 16
    → select_one (is_reaction m.id access.user.id emoji) w.db.reactions ≡ none
    → ((toggle_reaction access m emoji w).0 ≡ ok true)
      × ((toggle_reaction access m emoji (toggle_reaction access m emoji w).1).0 ≡ ok false)
      × ((toggle_reaction access m emoji (toggle_reaction access m emoji w).1).1.saved.reactions
          ≡ w.db.reactions)
unfolding select_one
toggle_twice access m emoji w may some_char short fresh =
    let (answer, tables) = toggle_on access m emoji w may some_char short fresh in
    let mine = reacted-is_reaction access m emoji in
    let p : MessageReaction → Bool = is_reaction m.id access.user.id emoji in
    let found : select_one p (with_reaction access m emoji w).reactions
        ≡ some (reacted access m emoji) =
      rw (select_one-append p w.db.reactions (reacted access m emoji ∷ []), fresh) (rw mine refl) in
    let (second, removed) =
      toggle_off access m emoji (toggle_reaction access m emoji w).1 (reacted access m emoji) may
        short (rw tables found) in
    (
      answer,
      second,
      removed
          ∙ rw tables (delete_rows-append_new p w.db.reactions (reacted access m emoji) fresh mine),
    )
