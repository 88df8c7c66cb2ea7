-- ===== src/Messages/Outcome.antt =====
-- How `send_message` of services/messages.py ends, and that it publishes what it has committed.
use runnerup_chat.Base.{
  ℕ, ◌+◌, ◌≡◌, refl, ap, ◌∙◌, ◌⊎◌, inl, inr, Bool, true, false, Option, some, List, [], ◌∷◌, ◌++◌,
  arith, Bool-cases, Option-cases, select_one, update_rows, ==_refl,
}
use runnerup_chat.Errors.{Result, Result-cases, ok, err, AppError, no_data_found}
use runnerup_chat.Security.{Platform}
use runnerup_chat.Models.Accounts.{Uuid, Text}
use runnerup_chat.Models.Chat.{Message, MessageKind, Attachment, Conversation}
use runnerup_chat.World.{Db, World, Event, Channel, Bucket, LimitName, Identity}
use runnerup_chat.Authz.{Access, Permission, is_live}
use runnerup_chat.Ratelimit.Enforce.{enforce-Enforced, passed, limited}
use runnerup_chat.Messages.{serialize, next_seq, bump, validate_body}
use runnerup_chat.Messages.Send.{SendResult, is_sent, store_message, send_new, send_message}
use runnerup_chat.Messages.Insert.{
  fine, failed, check_reply-Checked, find_attachments-Checked, Inserted, delivered, clashed,
  insert_message-Inserted,
}

-- Was a message returned as created?
abbrev pub is_created : Result SendResult → Bool
is_created (ok r) = r.created
is_created (err e) = false

module _ (lower : Text → Text) where
  module _ (os : Platform) (others : Db → Db) (access : Access) where
    abbrev pub cid : Uuid
    cid = access.conversation.id

    abbrev pub uid : Uuid
    uid = access.user.id

    -- The state in which a message is inserted.
    abbrev pub before_insert : World → List Bucket → World
    before_insert w bs = record w {
      buckets = bs;
      db = record (others w.db) {
        conversations = update_rows (is_live cid) (bump w.now) (others w.db).conversations;
      };
      saved = others w.saved;
    }

    pub data Sent (client_msg_id : Text) (origin : Option Uuid) (w : World)
        (x : Result SendResult × World) : Type 0 where
      refused :
          (e : AppError) (bs : List Bucket)
          → x ≡ (err e, record w { buckets = bs })
          → Sent client_msg_id origin w x
      repeated :
          (key : Uuid) (old : Message)
          → os.parse_uuid client_msg_id ≡ some key
          → select_one (is_sent cid uid key) w.db.messages ≡ some old
          → x ≡ (ok (record { message = old; created = false }), w)
          → Sent client_msg_id origin w x
      unavailable :
          (bs : List Bucket)
          → x ≡ (
            err no_data_found,
            record w { buckets = bs; db = others w.db; saved = others w.saved },
          )
          → Sent client_msg_id origin w x
      inserted :
          (key : Uuid) (bs : List Bucket) (c : Conversation) (m : Message)
          (attachments : List Attachment)
          → os.parse_uuid client_msg_id ≡ some key
          → select_one (is_live cid) (others w.db).conversations ≡ some c
          → m.conversation_id ≡ cid
          → m.seq ≡ c.last_seq + 1
          → is_sent cid uid key m ≡ true
          → Inserted uid key m attachments origin (before_insert w bs) x
          → Sent client_msg_id origin w x

    allocated :
        (client_msg_id : Text) (key : Uuid) (body : Option Text) (kind : MessageKind)
        (reply_to_id : Option Uuid) (attachments : List Attachment) (origin : Option Uuid)
        (message_id : Uuid) (event_id : ℕ) (w : World) (bs : List Bucket)
        → os.parse_uuid client_msg_id ≡ some key
        → Sent client_msg_id origin w (
            store_message lower others access key body kind reply_to_id attachments origin
              message_id event_id
              (record w { buckets = bs }))
    unfolding store_message next_seq
    allocated client_msg_id key body kind reply_to_id attachments origin message_id event_id w bs
          parsed =
        elim (Option-cases (select_one (is_live cid) (others w.db).conversations)) [
          | inl closed ↦ rw closed (unavailable bs refl)
          | inr (c, open_row) ↦ rw open_row (
              inserted key bs c _ attachments parsed open_row refl refl
                (ground (arith, ==_refl cid, ==_refl uid, ==_refl key))
                (insert_message-Inserted lower uid key _ attachments origin event_id
                  (before_insert w bs)))
        ]

    send_new-Sent :
        (client_msg_id : Text) (key : Uuid) (body : Option Text) (kind : MessageKind)
        (reply_to_id : Option Uuid) (attachment_ids : List Uuid) (origin : Option Uuid)
        (message_id : Uuid) (event_id : ℕ) (w : World)
        → os.parse_uuid client_msg_id ≡ some key
        → Sent client_msg_id origin w (
            send_new lower others access key body kind reply_to_id attachment_ids origin message_id
              event_id w)
    unfolding send_new
    send_new-Sent client_msg_id key body kind reply_to_id attachment_ids origin message_id event_id
          w parsed =
        elim (enforce-Enforced LimitName.message_send_user (Identity.known uid) w) [
          | limited bs n h e ↦ rw (e, send_new) (refused _ bs refl)
          | passed bs e ↦
              elim (enforce-Enforced LimitName.message_send_conv (Identity.known cid)
                (record w { buckets = bs })) [
                  | limited bs' n h e' ↦ rw (e, e', send_new) (refused _ bs' refl)
                  | passed bs' e' ↦
                      elim (check_reply-Checked cid reply_to_id (record w { buckets = bs' })) [
                        | failed r c ↦ rw (e, e', c, send_new) (refused r bs' refl)
                        | fine u c ↦
                            elim (find_attachments-Checked uid attachment_ids
                              (record w { buckets = bs' })) [
                                | failed r a ↦ rw (e, e', c, a, send_new) (refused r bs' refl)
                                | fine rows a ↦
                                    rw (e, e', c, a, send_new)
                                      (allocated client_msg_id key body kind reply_to_id rows origin
                                        message_id event_id w bs' parsed)
                              ]
                      ]
                ]
        ]

    module _ (client_msg_id : Text) (body : Option Text) (kind : MessageKind)
        (reply_to_id : Option Uuid) (attachment_ids : List Uuid) (origin : Option Uuid)
        (message_id : Uuid) (event_id : ℕ) where
      -- How a send ends. It is refused, and at most the rate limiter has noted it; or it was sent before, and
      -- nothing changes; or the conversation is gone; or the row was inserted, with the next sequence number
      -- of the conversation, and `Inserted` says how that ends.
      pub send_message-Sent :
          (w : World)
          → Sent client_msg_id origin w (
              send_message lower others os access client_msg_id body kind reply_to_id attachment_ids
                origin message_id event_id w)
      unfolding send_message
      send_message-Sent w = elim (Bool-cases (access.permissions Permission.send_message)) [
        | inr forbidden ↦ rw (forbidden, send_message) (refused _ w.buckets refl)
        | inl may ↦ elim (Result-cases (validate_body body kind attachment_ids)) [
          | inr (e, bad) ↦ rw (may, bad, send_message) (refused e w.buckets refl)
          | inl (b, good) ↦ elim (Option-cases (os.parse_uuid client_msg_id)) [
            | inl malformed ↦ rw (may, good, malformed, send_message) (refused _ w.buckets refl)
            | inr (key, parsed) ↦
                elim (Option-cases (select_one (is_sent cid uid key) w.db.messages)) [
                  | inr (old, found) ↦
                      rw (may, good, parsed, found, send_message)
                        (repeated key old parsed found refl)
                  | inl new ↦
                      rw (may, good, parsed, new, send_message)
                        (send_new-Sent client_msg_id key b kind reply_to_id attachment_ids origin
                          message_id event_id w parsed)
                ]
          ]
        ]
      ]

      -- Nothing is published of a message that is not stored. When a send has returned a message as
      -- created, the tables are committed, with the message in them as a new last row, numbered one
      -- past the counter that others had left in the conversation, and exactly one event was published, the
      -- serialized row; when it ends otherwise, nothing was published.
      pub published_after_commit :
          (w : World) (x : Result SendResult × World)
          → send_message lower others os access client_msg_id body kind reply_to_id attachment_ids
              origin message_id event_id w
            ≡ x
          → ((m : Message) × (c : Conversation) × (attachments : List Attachment) × (x.0
                ≡ ok (record { message = m; created = true }))
              × (x.1.saved ≡ x.1.db)
              × (select_one (is_live cid) (others w.db).conversations ≡ some c)
              × (m.seq ≡ c.last_seq + 1)
              × (x.1.saved.messages ≡ (others w.db).messages ++ m ∷ [])
              × (x.1.published
                  ≡ w.published
                    ++ record {
                      channel = Channel.conv m.conversation_id;
                      event = Event.message_created m.conversation_id (serialize m attachments);
                      origin = origin;
                    }
                      ∷ []))
            ⊎ ((x.1.published ≡ w.published) × (is_created x.0 ≡ false))
      published_after_commit w x ran = elim (rw ran at (send_message-Sent w)) [
        | refused e bs q ↦ inr (ap (λ p. p.1.published) q, ap (λ p. is_created p.0) q)
        | unavailable bs q ↦ inr (ap (λ p. p.1.published) q, ap (λ p. is_created p.0) q)
        | repeated key old parsed found q ↦
            inr (ap (λ p. p.1.published) q, ap (λ p. is_created p.0) q)
        | inserted key bs c m attachments parsed open_row here seq mine i ↦ elim i [
          | clashed q ↦ inr (ap (λ p. p.1.published) q, ap (λ p. is_created p.0) q)
          | delivered free q saved rows same out ↦ inl (
            m,
            c,
            attachments,
            q,
            saved,
            open_row,
            seq,
            (ap (λ (d : Db). d.messages) saved) ∙ rows,
            out,
          )
        ]
      ]
