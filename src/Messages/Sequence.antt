-- ===== src/Messages/Sequence.antt =====
-- The numbers of messages in a conversation (backend/app/services/messages.py).
use runnerup_chat.Base.{
  ℕ, ◌+◌, ◌≡◌, refl, sym, ap, ◌∙◌, Bool, true, not, ◌||◌, Option, some, List, [], ◌∷◌, arith, ◌==◌,
  leb, select_one, select_one-update, All, All-append, All-map, select_one-holds,
}
use runnerup_chat.Errors.{ok}
use runnerup_chat.Security.{Platform}
use runnerup_chat.Models.Accounts.{Uuid, Text}
use runnerup_chat.Models.Chat.{Message, MessageKind, Conversation}
use runnerup_chat.World.{Db, World}
use runnerup_chat.Authz.{Access, is_live}
use runnerup_chat.Messages.{bump}
use runnerup_chat.Messages.Send.{send_message}
use runnerup_chat.Messages.Insert.{delivered, clashed}
use runnerup_chat.Messages.Outcome.{
  refused, repeated, unavailable, inserted, is_created, send_message-Sent,
}

-- A message of the conversation has a number of at most `n`.
abbrev is_numbered : Uuid → ℕ → Message → Bool
is_numbered cid n m = not (m.conversation_id == cid) || leb m.seq n

abbrev pub NumberedTo : Uuid → ℕ → List Message → Type 0
NumberedTo cid n = All (λ m. is_numbered cid n m ≡ true)

module _ (lower : Text → Text) (os : Platform) (others : Db → Db) (access : Access)
    (client_msg_id : Text) (body : Option Text) (kind : MessageKind) (reply_to_id : Option Uuid)
    (attachment_ids : List Uuid) (origin : Option Uuid) (message_id : Uuid) (event_id : ℕ) where
  -- Numbers rise. Where the counter of the conversation, as others left it, is not below any number in
  -- it, a message that is created takes the number after the counter, which is above that of every
  -- message of the conversation, and the committed counter is then that number: again not below any
  -- number in it.
  pub sequence_rises :
      (w : World) (m : Message) (c : Conversation)
      → select_one (is_live access.conversation.id) (others w.db).conversations ≡ some c
      → NumberedTo access.conversation.id c.last_seq (others w.db).messages
      → (send_message lower others os access client_msg_id body kind reply_to_id attachment_ids
          origin message_id event_id w).0
        ≡ ok (record { message = m; created = true })
      → (m.seq ≡ c.last_seq + 1)
        × (select_one
              (is_live access.conversation.id)
              (send_message lower others os access client_msg_id body kind reply_to_id
                attachment_ids origin message_id event_id w).1.saved.conversations
            ≡ some (bump w.now c))
        × NumberedTo access.conversation.id
            (bump w.now c).last_seq
            (send_message lower others os access client_msg_id body kind reply_to_id attachment_ids
              origin message_id event_id w).1.saved.messages
  sequence_rises w m c here numbered sent =
      elim (send_message-Sent lower os others access client_msg_id body kind reply_to_id
        attachment_ids origin message_id event_id w) [
          | refused e bs q ↦ absurd (cc (ap (λ p. p.0) q, sent))
          | unavailable bs q ↦ absurd (cc (ap (λ p. p.0) q, sent))
          | repeated key old parsed found q ↦
              absurd (cc (ap (λ p. is_created p.0) q, ap is_created sent))
          | inserted key bs c' m' attachments parsed open_row home seq mine i ↦ elim i [
            | clashed q ↦ absurd (cc (ap (λ p. p.0) q, sent))
            | delivered free q saved rows same out ↦
                let same_c : c' ≡ c = cc (open_row, here) in
                let same_m : m' ≡ m = cc (sym q ∙ sent) in
                let number : m.seq ≡ c.last_seq + 1 =
                  ap (λ (x : Message). x.seq) (sym same_m)
                  ∙ seq
                  ∙ ap (λ (x : Conversation). x.last_seq + 1) same_c in
                (
                  number,
                  rw
                      (
                        saved,
                        same,
                        select_one-update (is_live access.conversation.id)
                            (is_live access.conversation.id) (bump w.now)
                            (others w.db).conversations (λ x. refl),
                        here,
                      )
                      (rw
                        (select_one-holds (is_live access.conversation.id)
                          (others w.db).conversations here)
                        refl),
                  rw (saved, rows, same_m)
                      (All-append _ (others w.db).messages (m ∷ [])
                        (All-map _ _ (others w.db).messages (λ x h. ground arith) numbered)
                        (ground (arith, number), tt)),
                )
          ]
        ]
