-- ===== src/Messages/Insert.antt =====
-- The checks of `send_message` of services/messages.py, and how its insertion ends.
use runnerup_chat.Base.{
  ℕ, ◌≡◌, refl, inl, inr, true, Option, none, some, List, [], ◌∷◌, ◌++◌, ◌==◌, Bool-cases,
  Option-cases, length, select_one, select_all,
}
use runnerup_chat.Errors.{
  Result, invalid_reply_target, invalid_attachments, ok, err, AppError, missing_greenlet,
  validation_failed,
}
use runnerup_chat.Models.Accounts.{Uuid, Text}
use runnerup_chat.Models.Chat.{Message, Attachment}
use runnerup_chat.World.{World, Event, Channel, commit, rollback, publish}
use runnerup_chat.Messages.{serialize, add_event}
use runnerup_chat.Messages.Send.{
  SendResult, is_reply_target, is_attachable, conflicts, check_reply, find_attachments, deliver,
  recover, insert_message, distinct,
}

-- A check that changes nothing.
pub data Checked {ℓ} {A : Type ℓ} (w : World) (x : Result A × World) : Type ℓ where
  fine : (a : A) → x ≡ (ok a, w) → Checked w x
  failed : (e : AppError) → x ≡ (err e, w) → Checked w x

pub check_reply-Checked :
    (cid : Uuid) (r : Option Uuid) (w : World) → Checked w (check_reply cid r w)
unfolding check_reply
check_reply-Checked cid none w = fine tt refl
check_reply-Checked cid (some parent) w =
    elim (Option-cases (select_one (is_reply_target cid parent) w.db.messages)) [
      | inl gone ↦ failed (validation_failed invalid_reply_target) (rw gone refl)
      | inr (m, e) ↦ fine tt (rw e refl)
    ]

pub find_attachments-Checked :
    (uid : Uuid) (wanted : List Uuid) (w : World) → Checked w (find_attachments uid wanted w)
unfolding find_attachments
find_attachments-Checked uid [] w = fine [] refl
find_attachments-Checked uid (x ∷ xs) w =
    elim (Bool-cases (
      length (select_all (is_attachable uid (x ∷ xs)) w.db.attachments)
      == length (distinct (x ∷ xs)))) [
        | inl same ↦ fine (select_all (is_attachable uid (x ∷ xs)) w.db.attachments) (rw same refl)
        | inr other ↦ failed (validation_failed invalid_attachments) (rw other refl)
      ]

-- How the insertion of a message ends.
pub data Inserted (uid key : Uuid) (m : Message) (attachments : List Attachment)
    (origin : Option Uuid) (w : World) (x : Result SendResult × World) : Type 0 where
  delivered :
      select_one (conflicts uid key m) w.db.messages ≡ none
      → x.0 ≡ ok (record { message = m; created = true })
      → x.1.saved ≡ x.1.db
      → x.1.db.messages ≡ w.db.messages ++ m ∷ []
      → x.1.db.conversations ≡ w.db.conversations
      → x.1.published
        ≡ w.published
          ++ record {
            channel = Channel.conv m.conversation_id;
            event = Event.message_created m.conversation_id (serialize m attachments);
            origin = origin;
          }
            ∷ []
      → Inserted uid key m attachments origin w x
  clashed :
      x ≡ (err missing_greenlet, record w { db = w.saved })
      → Inserted uid key m attachments origin w x

module _ (lower : Text → Text) where
  pub insert_message-Inserted :
      (uid key : Uuid) (m : Message) (attachments : List Attachment) (origin : Option Uuid)
      (event_id : ℕ) (w : World)
      → Inserted uid key m attachments origin w
          (insert_message lower uid key m attachments origin event_id w)
  unfolding insert_message deliver recover rollback commit publish add_event
  insert_message-Inserted uid key m attachments origin event_id w =
      elim (Option-cases (select_one (conflicts uid key m) w.db.messages)) [
        | inl free ↦ rw (free, insert_message) (delivered free refl refl refl refl refl)
        | inr (c, e) ↦ rw (e, insert_message) (clashed refl)
      ]
