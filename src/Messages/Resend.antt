-- ===== src/Messages/Resend.antt =====
-- A repeated `send_message` of services/messages.py has no effect.
use runnerup_chat.Base.{
  ℕ, ◌≡◌, refl, sym, ap, ◌∙◌, inl, inr, Bool, true, false, ◌&&◌, ◌||◌, Option, none, some, List, [],
  ◌∷◌, arith, ◌==◌, Bool-cases, select_one, select_one-append,
}
use runnerup_chat.Errors.{Result, Result-cases, ok, err}
use runnerup_chat.Security.{Platform}
use runnerup_chat.Models.Accounts.{Uuid, Time, Text}
use runnerup_chat.Models.Chat.{Message, MessageKind}
use runnerup_chat.World.{Db, World}
use runnerup_chat.Authz.{Access, Permission}
use runnerup_chat.Messages.{validate_body}
use runnerup_chat.Messages.Send.{SendResult, is_sent, send_message}
use runnerup_chat.Messages.Insert.{delivered, clashed}
use runnerup_chat.Messages.Outcome.{
  Sent, refused, repeated, unavailable, inserted, send_message-Sent,
}

sent_message : Result SendResult → Option Message
sent_message (ok r) = some r.message
sent_message (err e) = none

select_one-or :
    {A : Type 0} (p q : A → Bool) (xs : List A)
    → select_one (λ x. p x || q x) xs ≡ none
    → select_one q xs ≡ none
unfolding select_one
select_one-or p q [] h = refl
select_one-or p q (x ∷ xs) h = elim (Bool-cases (p x || q x)) [
  | inl hit ↦ absurd (ground arith)
  | inr miss ↦ ground (arith, select_one-or p q xs (rw miss at h))
]

module _ (lower : Text → Text) where
  module _ (os : Platform) (others : Db → Db) (access : Access) where
    module _ (client_msg_id : Text) (body : Option Text) (kind : MessageKind)
        (reply_to_id : Option Uuid) (attachment_ids : List Uuid) (origin : Option Uuid)
        (message_id : Uuid) (event_id : ℕ) where
      -- After a send that returned a message, that is the one found under its key.
      pub found_after :
          (w : World) (x : Result SendResult × World) (r : SendResult)
          → Sent lower os others access client_msg_id origin w x
          → x.0 ≡ ok r
          → (key : Uuid) × (os.parse_uuid client_msg_id ≡ some key)
            × (select_one (is_sent access.conversation.id access.user.id key) x.1.db.messages
                ≡ some r.message)
      unfolding select_one sent_message
      found_after w x r s h = elim s [
        | refused e bs q ↦ absurd (cc (ap (λ p. p.0) q, h))
        | unavailable bs q ↦ absurd (cc (ap (λ p. p.0) q, h))
        | repeated key old parsed found q ↦ (
          key,
          parsed,
          rw (ap (λ p. p.1.db.messages) q) (found ∙ ap sent_message (sym (ap (λ p. p.0) q) ∙ h)),
        )
        | inserted key bs c m attachments parsed open_row here seq mine i ↦ elim i [
          | clashed q ↦ absurd (cc (ap (λ p. p.0) q, h))
          | delivered free q saved rows same out ↦
              let none_before : select_one (is_sent access.conversation.id access.user.id key)
                    (others w.db).messages
                  ≡ none =
                rw here at (
                  select_one-or
                    (λ other. other.conversation_id == m.conversation_id && other.seq == m.seq)
                    (is_sent m.conversation_id access.user.id key) (others w.db).messages free) in
              (
                key,
                parsed,
                rw
                    (
                      rows,
                      select_one-append (is_sent access.conversation.id access.user.id key)
                          (others w.db).messages (m ∷ []),
                      none_before,
                    )
                    ((rw mine refl) ∙ ap sent_message (sym q ∙ h)),
              )
        ]
      ]

      admitted :
          (w : World) (r : SendResult)
          → (send_message lower others os access client_msg_id body kind reply_to_id attachment_ids
              origin message_id event_id w).0
            ≡ ok r
          → (access.permissions Permission.send_message ≡ true)
            × (b : Option Text) × (validate_body body kind attachment_ids ≡ ok b)
      unfolding send_message
      admitted w r h = elim (Bool-cases (access.permissions Permission.send_message)) [
        | inr forbidden ↦ absurd (cc (h, forbidden))
        | inl may ↦ elim (Result-cases (validate_body body kind attachment_ids)) [
          | inr (e, bad) ↦ absurd (cc (rw (may, bad) at h))
          | inl (b, good) ↦ (may, b, good)
        ]
      ]

      repeat :
          (others' : Db → Db) (origin' : Option Uuid) (message_id' : Uuid) (event_id' : ℕ)
          (w : World) (key : Uuid) (b : Option Text) (m : Message)
          → access.permissions Permission.send_message ≡ true
          → validate_body body kind attachment_ids ≡ ok b
          → os.parse_uuid client_msg_id ≡ some key
          → select_one (is_sent access.conversation.id access.user.id key) w.db.messages ≡ some m
          → send_message lower others' os access client_msg_id body kind reply_to_id attachment_ids
              origin' message_id' event_id' w
            ≡ (ok (record { message = m; created = false }), w)
      unfolding send_message
      repeat others' origin' message_id' event_id' w key b m may good parsed found =
          rw (may, good, parsed, found) refl

      -- Sending again what was sent has no effect. When a send has returned a message, sending the
      -- same again, at whatever later time, over whatever connection and with whatever fresh ids, and
      -- whatever other transactions would commit meanwhile, returns that message, marked as not created,
      -- and leaves the state as it is: no row, no event, no publication, and the rate limiter is not asked.
      pub resend_no_effect :
          (others' : Db → Db) (origin' : Option Uuid) (message_id' : Uuid) (event_id' : ℕ)
          (w : World) (r : SendResult) (later : Time)
          → (send_message lower others os access client_msg_id body kind reply_to_id attachment_ids
              origin message_id event_id w).0
            ≡ ok r
          → send_message lower others' os access client_msg_id body kind reply_to_id attachment_ids
              origin' message_id' event_id'
              (record ((send_message lower others os access client_msg_id body kind reply_to_id
                attachment_ids origin message_id event_id w).1) { now = later })
            ≡ (
              ok (record { message = r.message; created = false }),
              record ((send_message lower others os access client_msg_id body kind reply_to_id
                  attachment_ids origin message_id event_id w).1) { now = later },
            )
      resend_no_effect others' origin' message_id' event_id' w r later h =
          let (may, b, good) = admitted w r h in
          let (key, parsed, found) =
            found_after w _ r
              (send_message-Sent lower os others access client_msg_id body kind reply_to_id
                attachment_ids origin message_id event_id w)
              h in
          repeat others' origin' message_id' event_id' _ key b r.message may good parsed found
