-- ===== src/Messages/Pages.antt =====
-- Pages and read marks of services/messages.py.
use runnerup_chat.Base.{
  ℕ, ◌≤◌, ◌<◌, ◌≡◌, ◌⊎◌, refl, inl, inr, Bool, false, ◌&&◌, Option, none, some, List, [], ◌∷◌,
  arith, leb, ltb, length, take, map, min, max, Bool-cases, All, All-map, All-take, length-take-le,
  select_all-holds, select_one, select_one-update, ==_refl,
}
use runnerup_chat.Errors.{ok, err, permission_denied, plain}
use runnerup_chat.Models.Accounts.{Uuid}
use runnerup_chat.Models.Chat.{ConversationMember, Message}
use runnerup_chat.World.{World, commit, publish}
use runnerup_chat.Authz.{Access, Permission, is_member_row}
use runnerup_chat.Messages.{serialize}
use runnerup_chat.Messages.Read.{
  insert_by, sort_by, newer, older, in_conversation, page_query, list_messages, mark_read,
  with_mark,
}

insert_by-All {ℓ κ} :
    {A : Type ℓ} (P : A → Type κ) (before : A → A → Bool) (a : A) (xs : List A)
    → P a
    → All P xs
    → All P (insert_by before a xs)
unfolding insert_by
insert_by-All P before a [] h hs = (h, tt)
insert_by-All P before a (x ∷ xs) h hs = elim (Bool-cases (before a x)) [
  | inl first ↦ rw first (h, hs)
  | inr later ↦ rw later (hs.0, insert_by-All P before a xs h hs.1)
]

sort_by-All {ℓ κ} :
    {A : Type ℓ} (P : A → Type κ) (before : A → A → Bool) (xs : List A)
    → All P xs
    → All P (sort_by before xs)
unfolding sort_by
sort_by-All P before [] h = tt
sort_by-All P before (x ∷ xs) h =
    insert_by-All P before x (sort_by before xs) h.0 (sort_by-All P before xs h.1)

-- What a page asks for: a row of the conversation, past the cursor that is given. `before` wins.
abbrev pub IsAsked : Uuid → Option ℕ → Option ℕ → Message → Type 0
IsAsked cid (some b) after m = (m.conversation_id ≡ cid) × (m.seq < b)
IsAsked cid none (some a) m = (m.conversation_id ≡ cid) × (a < m.seq)
IsAsked cid none none m = m.conversation_id ≡ cid

page_query-All :
    (cid : Uuid) (before after : Option ℕ) (rows : List Message)
    → All (IsAsked cid before after) (page_query cid before after rows)
unfolding page_query
page_query-All cid (some b) after rows = sort_by-All (IsAsked cid (some b) after) newer _ (
    All-map _ (IsAsked cid (some b) after) _ (λ m h. (ground arith, ground arith))
      (select_all-holds (λ m. in_conversation cid m && ltb m.seq b) rows))
page_query-All cid none (some a) rows = sort_by-All (IsAsked cid none (some a)) older _ (
    All-map _ (IsAsked cid none (some a)) _ (λ m h. (ground arith, ground arith))
      (select_all-holds (λ m. in_conversation cid m && ltb a m.seq) rows))
page_query-All cid none none rows = sort_by-All (IsAsked cid none none) newer _ (
    All-map _ (IsAsked cid none none) _ (λ m h. ground arith)
      (select_all-holds (in_conversation cid) rows))

-- A page changes nothing. Without the permission to read it is refused. With it, the page is the
-- serialized form of at most 100 rows, whatever limit is asked for, each a message of that
-- conversation and on the asked side of the cursor.
page_bounded :
    (access : Access) (before after : Option ℕ) (limit : ℕ) (w : World)
    → ((access.permissions Permission.read_messages ≡ false)
        × (list_messages access before after limit w ≡ (err (permission_denied plain), w)))
      ⊎ ((rows : List Message) × (list_messages access before after limit w
            ≡ (ok (map (λ m. serialize m []) rows), w))
          × (length rows ≤ 100)
          × All (IsAsked access.conversation.id before after) rows)
unfolding list_messages
page_bounded access before after limit w =
    elim (Bool-cases (access.permissions Permission.read_messages)) [
      | inr may_not ↦ inl (may_not, rw may_not refl)
      | inl may ↦
          let rows = page_query access.conversation.id before after w.db.messages in
          inr (
            take (max 1 (min limit 100)) rows,
            rw may refl,
            omega (arith, length-take-le (max 1 (min limit 100)) rows),
            All-take (IsAsked access.conversation.id before after) (max 1 (min limit 100)) rows
                (page_query-All access.conversation.id before after w.db.messages),
          )
    ]

-- A read mark never moves back and never passes the end of the conversation. For a member m whose
-- mark is within the conversation, `mark_read` returns, and in the committed tables the row of m
-- has a mark from the old one to the last sequence number, and one that covers what was asked up
-- to that number; if no higher mark was asked for, nothing changes and nothing is published.
read_mark_rises :
    (access : Access) (m : ConversationMember) (up_to : ℕ) (w : World)
    → access.membership ≡ some m
    → select_one (is_member_row m.conversation_id m.user_id) w.db.members ≡ some m
    → m.last_read_seq ≤ access.conversation.last_seq
    → ((up_to ≤ m.last_read_seq) × (mark_read access up_to w ≡ (ok tt, w)))
      ⊎ ((m' : ConversationMember) × ((mark_read access up_to w).0 ≡ ok tt)
          × (select_one
                (is_member_row m.conversation_id m.user_id)
                (mark_read access up_to w).1.saved.members
              ≡ some m')
          × (m.last_read_seq ≤ m'.last_read_seq)
          × (m'.last_read_seq ≤ access.conversation.last_seq)
          × (min up_to access.conversation.last_seq ≤ m'.last_read_seq))
unfolding mark_read commit publish
read_mark_rises access m up_to w own found within = elim (Bool-cases (leb up_to m.last_read_seq)) [
  | inl seen ↦ inl (ground arith, rw (own, seen) refl)
  | inr new ↦
      let mark = min up_to access.conversation.last_seq in
      inr (
        with_mark mark m,
        rw (own, new) refl,
        rw (own, new)
            (rw
              (
                select_one-update (is_member_row m.conversation_id m.user_id)
                    (is_member_row m.conversation_id m.user_id) (with_mark mark) w.db.members
                    (λ x. refl),
                found,
                ==_refl m.conversation_id,
                ==_refl m.user_id,
              )
              refl),
        ground arith,
        omega arith,
        omega arith,
      )
]
