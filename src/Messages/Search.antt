-- ===== src/Messages/Search.antt =====
-- `search_messages` of services/messages.py. Whether a text fits a query is the database's text search,
-- an argument.
use runnerup_chat.Base.{
  ℕ, min, ◌≡◌, Bool, true, false, ◌&&◌, Option, none, some, List, [], ◌∷◌, arith, map, take, length,
  ltb, ◌==◌, is_none, is_some, select_one, select_all, select_all-holds, Bool-cases, inl, inr, All,
  All-map, All-take,
}
use mathlib.Core.Path.{subst}
use runnerup_chat.Errors.{ok, validation_failed, query_too_short}
use runnerup_chat.Texts.{is_space, strip_of}
use runnerup_chat.Models.Accounts.{Uuid, Text, User}
use runnerup_chat.Models.Chat.{ConversationMember, Message, Serialized}
use runnerup_chat.World.{World, Exec, LimitName, Identity, pure, gets, raise_if, ◌>>=◌, ◌>>◌}
use runnerup_chat.Ratelimit.{enforce}
use runnerup_chat.Ratelimit.Enforce.{passed, limited, enforce-Enforced}
use runnerup_chat.Messages.{serialize, is_present}
use runnerup_chat.Messages.Read.{sort_by, newer}
use runnerup_chat.Messages.Sorting.{All-sort_by}

-- `if conversation_id: ...`
abbrev is_chosen : Option Uuid → Uuid → Bool
is_chosen none cid = true
is_chosen (some chosen) cid = cid == chosen

-- The message's conversation is among those that the caller is a member of now.
abbrev pub is_own_conversation : Uuid → List ConversationMember → Message → Bool
is_own_conversation uid members m = is_some (select_one (is_present m.conversation_id uid) members)

abbrev pub is_hit :
    (fits : Text → Option Text → Bool)
    → Uuid
    → List ConversationMember
    → (query_text : Text) → Option Uuid
    → Message
    → Bool
is_hit fits uid members query_text conversation_id m =
    is_own_conversation uid members m
    && is_chosen conversation_id m.conversation_id
    && is_none m.deleted_at
    && fits query_text m.body

unfoldable pub search_messages :
    (fits : Text → Option Text → Bool)
    → User
    → (query_text : Text) → (conversation_id : Option Uuid) → (limit : ℕ) → Exec (List Serialized)
search_messages fits u query_text conversation_id limit = do
  enforce LimitName.search_user (Identity.known u.id)
  raise_if (ltb (length (strip_of is_space query_text)) 2) (validation_failed query_too_short)
  rows ← gets (λ w.
      sort_by newer
        (select_all (is_hit fits u.id w.db.members query_text conversation_id) w.db.messages))
  pure (map (λ m. serialize m []) (take (min limit 50) rows))

-- What a caller may be shown: a message of a conversation that the caller is a member of, not deleted.
pub record Shown (u : User) (w : World) (s : Serialized) : Type 0 where
  pub member : is_some (select_one (is_present s.conversation_id u.id) w.db.members) ≡ true
  pub kept : s.deleted ≡ false

All-serialized :
    (u : User) (w : World) (ms : List Message)
    → All
        (λ (m : Message).
          (is_own_conversation u.id w.db.members m ≡ true) × (is_none m.deleted_at ≡ true))
        ms
    → All (Shown u w) (map (λ m. serialize m []) ms)
unfolding serialize
All-serialized u w [] h = tt
All-serialized u w (m ∷ ms) h =
    (record { member = h.0.0; kept = ground (arith, h.0.1) }, All-serialized u w ms h.1)

-- A search that answers shows messages of conversations alone in which the caller is a member now, and
-- none that is deleted.
pub search_shows_own :
    (fits : Text → Option Text → Bool) (u : User) (query_text : Text)
    (conversation_id : Option Uuid) (limit : ℕ) (w w' : World) (found : List Serialized)
    → search_messages fits u query_text conversation_id limit w ≡ (ok found, w')
    → All (Shown u w) found
unfolding search_messages
search_shows_own fits u query_text conversation_id limit w w' found e =
    elim (enforce-Enforced LimitName.search_user (Identity.known u.id) w) [
      | limited bs n pos h ↦ absurd (cc (rw h at e))
      | passed bs h ↦ elim (Bool-cases (ltb (length (strip_of is_space query_text)) 2)) [
        | inl short ↦ absurd (cc (rw (h, short) at e))
        | inr long ↦
            let p = is_hit fits u.id w.db.members query_text conversation_id in
            let rows = take (min limit 50) (sort_by newer (select_all p w.db.messages)) in
            let same : map (λ m. serialize m []) rows ≡ found = cc (rw (h, long) at e) in
            subst (All (Shown u w)) same (
              All-serialized u w rows (
                All-take _ (min limit 50) _ (
                  All-sort_by _ newer _
                    (All-map _ _ _ (λ m hit. ground arith) (select_all-holds p w.db.messages)))))
      ]
    ]
