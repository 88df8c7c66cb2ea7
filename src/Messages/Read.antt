-- ===== src/Messages/Read.antt =====
-- Reading in services/messages.py: pages, read marks and the replay of events.
use runnerup_chat.Base.{
  ℕ, ◌+◌, Bool, ◌&&◌, Option, none, some, List, [], ◌∷◌, map, take, ◌==◌, ltb, leb, min, max,
  if◌then◌else◌, is_some, select_one, select_all, update_rows,
}
use runnerup_chat.Errors.{not_visible}
use runnerup_chat.Models.Accounts.{Uuid, Time, User}
use runnerup_chat.Models.Chat.{ConversationMember, Message, Serialized, ConversationEvent}
use runnerup_chat.World.{
  Db, Exec, Event, Channel, gets, or_raise, execute, commit, publish, ◌>>=◌, ◌>>◌, pure,
}
use runnerup_chat.Authz.{Access, Permission, require, is_member_row}
use runnerup_chat.Messages.{serialize, is_present}

-- `ORDER BY`: insertion by a key.
unfoldable pub insert_by {ℓ} : {A : Type ℓ} → (A → A → Bool) → A → List A → List A
insert_by before a [] = a ∷ []
insert_by before a (x ∷ xs) = if before a x then a ∷ x ∷ xs else x ∷ insert_by before a xs

unfoldable pub sort_by {ℓ} : {A : Type ℓ} → (A → A → Bool) → List A → List A
sort_by before [] = []
sort_by before (x ∷ xs) = insert_by before x (sort_by before xs)

abbrev pub newer : Message → Message → Bool
newer a b = ltb b.seq a.seq

abbrev pub older : Message → Message → Bool
older a b = ltb a.seq b.seq

abbrev pub in_conversation : Uuid → Message → Bool
in_conversation cid m = m.conversation_id == cid

-- The query of `list_messages`, before its limit.
unfoldable pub page_query : Uuid → (before_seq after_seq : Option ℕ) → List Message → List Message
page_query cid (some b) after rows =
    sort_by newer (select_all (λ m. in_conversation cid m && ltb m.seq b) rows)
page_query cid none (some a) rows =
    sort_by older (select_all (λ m. in_conversation cid m && ltb a m.seq) rows)
page_query cid none none rows = sort_by newer (select_all (in_conversation cid) rows)

-- `limit` is what `max(1, ...)` makes of a negative one, too.
unfoldable pub list_messages :
    Access → (before_seq after_seq : Option ℕ) → (limit : ℕ) → Exec (List Serialized)
list_messages access before after limit = do
  require access Permission.read_messages
  rows ← gets (λ w. page_query access.conversation.id before after w.db.messages)
  pure (map (λ m. serialize m []) (take (max 1 (min limit 100)) rows))

abbrev pub with_mark : ℕ → ConversationMember → ConversationMember
with_mark mark m = record m { last_read_seq = mark }

unfoldable pub mark_read : Access → (up_to_seq : ℕ) → Exec (Unit {0})
mark_read access up_to_seq = do
  m ← or_raise access.membership not_visible
  let mark = min up_to_seq access.conversation.last_seq
  let move : Exec (Unit {0}) = (do
    execute (λ d. record d {
      members = update_rows (is_member_row m.conversation_id m.user_id) (with_mark mark) d.members;
    })
    commit
    publish (Channel.conv access.conversation.id)
        (Event.receipt_read access.conversation.id access.user.id mark) none)
  if leb up_to_seq m.last_read_seq then pure tt else move

abbrev pub is_replayed : Db → Time → Uuid → ℕ → ConversationEvent → Bool
is_replayed db now uid after e =
    ltb after e.id
    && is_some (select_one (is_present e.conversation_id uid) db.members)
    && ltb (e.created_at + 1000000) now

unfoldable pub last_id : ℕ → List ConversationEvent → ℕ
last_id cursor [] = cursor
last_id cursor (e ∷ es) = last_id e.id es

unfoldable pub sync_events : User → (after_id limit : ℕ) → Exec (List ConversationEvent × ℕ)
sync_events u after limit = do
  rows ← gets (λ w.
      sort_by (λ (a b : ConversationEvent). ltb a.id b.id)
        (select_all (is_replayed w.db w.now u.id after) w.db.events))
  let events = take limit rows
  pure (events, last_id after events)
