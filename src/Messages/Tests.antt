-- ===== src/Messages/Tests.antt =====
-- Concrete runs of services/messages.py.
use runnerup_chat.Messages.Change.{toggle_reaction}
use runnerup_chat.Texts.{codes}
use runnerup_chat.Messages.Trail.{toggle_twice}
use runnerup_chat.Messages.{next_seq, add_event, resolve_mentions, handles_in, is_mentioned, bump}
use runnerup_chat.Texts.{is_space, strip_of, drop_while, reverse_onto}
use runnerup_chat.Messages.Send.{
  send_new, store_message, insert_message, deliver, recover, check_reply, find_attachments,
}
use runnerup_chat.Messages.Sequence.{NumberedTo, sequence_rises}
use runnerup_chat.World.{commit, publish}
use runnerup_chat.Ratelimit.{
  enforce, check, check_rounds, eval_window, sliding_window, limits, find_slot, put_slot, prune,
  live, zadd, oldest, name_code, identity_eq, is_bucket,
}
use runnerup_chat.Messages.Search.{Shown, search_messages, search_shows_own}
use runnerup_chat.Samples.{group, bob}
use runnerup_chat.Base.{
  min, ℕ, count_rows, is_some, ◌<◌, leb, if◌then◌else◌, ◌+◌, ◌≤◌, ◌≡◌, ◌⊎◌, refl, true, false, ◌&&◌,
  none, some, List, [], ◌∷◌, ◌++◌, arith, ◌==◌, select_one, select_all, update_rows, length, All,
}
use runnerup_chat.Errors.{Result, ok, err, permission_denied, plain, no_data_found}
use runnerup_chat.Models.Chat.{
  Message, MessageKind, Conversation, Attachment, ConversationEvent, Payload,
}
use runnerup_chat.World.{Db, World, Event, Channel}
use runnerup_chat.Authz.{is_live, can_delete_message}
use runnerup_chat.Messages.{validate_body, clean, is_blank, is_all_space, serialize, is_present}
use runnerup_chat.Messages.Send.{SendResult, send_message}
use runnerup_chat.Messages.Change.{edit_message, delete_message, erased}
use runnerup_chat.Messages.Read.{sort_by, insert_by, is_replayed, sync_events}
use runnerup_chat.Messages.Outcome.{is_created, published_after_commit}
use runnerup_chat.Messages.Resend.{resend_no_effect}
use runnerup_chat.Messages.Trail.{
  Edits, edit_keeps_trail, deletion_event, deletion_notice, delete_erases,
}
use runnerup_chat.Messages.Replay.{has_id, sync_is_exact}
use runnerup_chat.Samples.{bob, sample_platform, same_case, hello, start, noon, access, message}

abbrev nobody_else : Db → Db
nobody_else d = d

-- A first send in the group, by Alice.
abbrev first_send : Result SendResult × World
first_send =
    send_message same_case nobody_else sample_platform access (44 ∷ []) (some hello)
      MessageKind.text none [] none 101 1 start

-- A send under the key of the message that is there.
abbrev second_send : Result SendResult × World
second_send =
    send_message same_case nobody_else sample_platform access (33 ∷ []) (some hello)
      MessageKind.text none [] none 101 1 start

published_after_commit_example :
    ((m : Message) × (c : Conversation) × (attachments : List Attachment) × (first_send.0
        ≡ ok (record { message = m; created = true }))
      × (first_send.1.saved ≡ first_send.1.db)
      × (select_one (is_live 10) start.db.conversations ≡ some c)
      × (m.seq ≡ c.last_seq + 1)
      × (first_send.1.saved.messages ≡ start.db.messages ++ m ∷ [])
      × (first_send.1.published
          ≡ start.published
            ++ record {
              channel = Channel.conv m.conversation_id;
              event = Event.message_created m.conversation_id (serialize m attachments);
              origin = none;
            }
              ∷ []))
    ⊎ ((first_send.1.published ≡ start.published) × (is_created first_send.0 ≡ false))
published_after_commit_example =
    published_after_commit same_case sample_platform nobody_else access (44 ∷ []) (some hello)
      MessageKind.text none [] none 101 1 start first_send refl

resend_no_effect_example :
    send_message same_case nobody_else sample_platform access
      (33 ∷ [])
      (some hello)
      MessageKind.text
      none
      []
      none
      102
      2
      (record second_send.1 { now = noon + 1 })
    ≡ (ok (record { message = message; created = false }), record second_send.1 { now = noon + 1 })
unfolding send_message validate_body is_blank is_all_space is_space clean select_one select_all
resend_no_effect_example =
    resend_no_effect same_case sample_platform nobody_else access (33 ∷ []) (some hello)
      MessageKind.text none [] none 101 1 nobody_else none 102 2 start
      (record { message = message; created = false }) (noon + 1) refl

edit_keeps_trail_example :
    Edits access message hello start (edit_message access message hello 1 start)
edit_keeps_trail_example = edit_keeps_trail access message hello 1 start

delete_erases_example :
    ((can_delete_message access message ≡ false)
      × (delete_message access message 1 start ≡ (err (permission_denied plain), start)))
    ⊎ ((select_one (is_live 10) start.db.conversations ≡ none)
        × ((delete_message access message 1 start).0 ≡ err no_data_found)
        × ((delete_message access message 1 start).1.saved ≡ start.saved)
        × ((delete_message access message 1 start).1.published ≡ start.published))
    ⊎ ((c : Conversation) × (can_delete_message access message ≡ true)
        × (select_one (is_live 10) start.db.conversations ≡ some c)
        × ((delete_message access message 1 start).0 ≡ ok tt)
        × ((delete_message access message 1 start).1.saved.messages
            ≡ update_rows
                (λ (r : Message). r.id == 100)
                (λ r. erased noon 1 message)
                start.db.messages)
        × ((delete_message access message 1 start).1.saved.events
            ≡ start.db.events ++ deletion_event access message 1 (c.last_seq + 1) noon ∷ [])
        × ((delete_message access message 1 start).1.saved.edits ≡ start.db.edits)
        × ((delete_message access message 1 start).1.published
            ≡ start.published ++ deletion_notice access message ∷ []))
delete_erases_example = delete_erases access message 1 start

abbrev sent_message : Message
sent_message = record message { id = 101; seq = 5; client_msg_id = 44 }

sequence_rises_example :
    (5 ≡ 4 + 1)
    × (select_one (is_live 10) first_send.1.saved.conversations ≡ some (bump noon group))
    × NumberedTo 10 5 first_send.1.saved.messages
unfolding send_message send_new store_message insert_message deliver recover check_reply
    find_attachments next_seq add_event resolve_mentions handles_in is_mentioned validate_body
    is_blank is_all_space is_space clean serialize commit publish select_one select_all update_rows
    enforce check check_rounds eval_window sliding_window limits find_slot put_slot prune live zadd
    oldest name_code identity_eq is_bucket
sequence_rises_example =
    sequence_rises same_case sample_platform nobody_else access (44 ∷ []) (some hello)
      MessageKind.text none [] none 101 1 start sent_message group refl (refl, tt) refl

search_shows_own_example : All (Shown bob start) (serialize message [] ∷ [])
unfolding search_messages enforce check check_rounds eval_window sliding_window limits find_slot
    put_slot prune live zadd oldest name_code identity_eq is_bucket select_one select_all sort_by
    insert_by strip_of drop_while reverse_onto is_space
search_shows_own_example =
    search_shows_own (λ t b. true) bob hello none 30 start
      (search_messages (λ t b. true) bob hello none 30 start).1 (serialize message [] ∷ []) refl

-- Two events of the group, an hour ago.
abbrev an_event : ℕ → ConversationEvent
an_event i = record {
  id = i;
  conversation_id = 10;
  seq = i;
  payload = Payload.message_deleted 100 false;
  actor_id = some 1;
  created_at = 0;
}

abbrev eventful : World
eventful = record start { db = record start.db { events = an_event 6 ∷ an_event 5 ∷ [] } }

eventful_unique : (k : ℕ) → count_rows (has_id k) eventful.db.events ≤ 1
unfolding count_rows
eventful_unique k = ground arith

-- Of two events one is asked for.
sync_is_exact_example :
    (events : List ConversationEvent) × (cursor : ℕ) × (sync_events bob 4 1 eventful
      ≡ (ok (events, cursor), eventful))
    × All
        (λ e.
          (4 < e.id)
          × (is_some (select_one (is_present e.conversation_id 2) eventful.db.members) ≡ true)
          × (e.created_at + 1000000 < eventful.now))
        events
    × (length events
        ≡ min 1 (count_rows (is_replayed eventful.db eventful.now 2 4) eventful.db.events))
    × (4 ≤ cursor)
    × ((k : ℕ)
        → count_rows (has_id k) events ≡ (
            if leb k cursor
            then count_rows
                (λ e. is_replayed eventful.db eventful.now 2 4 e && has_id k e)
                eventful.db.events
            else 0))
sync_is_exact_example = sync_is_exact bob 4 1 eventful eventful_unique

toggle_twice_example :
    ((toggle_reaction access message (codes "+1") start).0 ≡ ok true)
    × ((toggle_reaction access message
          (codes "+1")
          (toggle_reaction access message (codes "+1") start).1).0
        ≡ ok false)
    × ((toggle_reaction access message
          (codes "+1")
          (toggle_reaction access message (codes "+1") start).1).1.saved.reactions
        ≡ start.db.reactions)
unfolding select_one
toggle_twice_example =
    toggle_twice access message (codes "+1") start refl (omega arith) (omega arith) refl
