-- ===== src/Conversations/Direct.antt =====
-- Two users who open a direct conversation with each other, in services/conversations.py.
use runnerup_chat.Base.{
  ℕ, min, max, ◌≡◌, refl, none, some, [], ◌∷◌, arith, ◌==◌, ==_refl, select_one, select_one-append,
}
use runnerup_chat.Errors.{ok}
use runnerup_chat.Models.Accounts.{Uuid, Time}
use runnerup_chat.Models.Chat.{Conversation, DirectConversationKey}
use runnerup_chat.World.{World, Db, commit, rollback}
use runnerup_chat.Conversations.Create.{
  is_pair, find_direct, direct_conversation, with_direct, commit_direct, insert_direct,
}

min_sym : (a b : ℕ) → min a b ≡ min b a
min_sym a b = omega arith

max_sym : (a b : ℕ) → max a b ≡ max b a
max_sym a b = omega arith

-- The first of two insertions goes through.
first_inserts :
    (a b cid : Uuid) (w : World)
    → select_one (is_pair (min a b) (max a b)) w.db.direct_keys ≡ none
    → insert_direct a b cid w ≡ (
      ok (some (direct_conversation cid a w.now)),
      record w { db = with_direct a b cid w.now w.db; saved = with_direct a b cid w.now w.db },
    )
unfolding insert_direct commit_direct commit
first_inserts a b cid w new_pair = rw new_pair refl

pair_there :
    (a b cid : Uuid) (now : Time) (d : Db)
    → select_one (is_pair (min a b) (max a b)) d.direct_keys ≡ none
    → select_one (is_pair (min a b) (max a b)) (with_direct a b cid now d).direct_keys
      ≡ some (record { conversation_id = cid; user_lo = min a b; user_hi = max a b })
unfolding select_one
pair_there a b cid now d new_pair =
    rw
      (
        select_one-append (is_pair (min a b) (max a b)) d.direct_keys
            (record { conversation_id = cid; user_lo = min a b; user_hi = max a b } ∷ []),
        new_pair,
        ==_refl (min a b),
        ==_refl (max a b),
      )
      refl

conversation_there :
    (a b cid : Uuid) (now : Time) (d : Db)
    → select_one (λ (c : Conversation). c.id == cid) d.conversations ≡ none
    → select_one (λ (c : Conversation). c.id == cid) (with_direct a b cid now d).conversations
      ≡ some (direct_conversation cid a now)
unfolding select_one
conversation_there a b cid now d new_id =
    rw
      (
        select_one-append (λ (c : Conversation). c.id == cid) d.conversations
            (direct_conversation cid a now ∷ []),
        new_id,
        ==_refl cid,
      )
      refl

direct_there :
    (a b cid : Uuid) (now : Time) (d : Db)
    → select_one (is_pair (min a b) (max a b)) d.direct_keys ≡ none
    → select_one (λ (c : Conversation). c.id == cid) d.conversations ≡ none
    → find_direct (min a b) (max a b) (with_direct a b cid now d)
      ≡ some (direct_conversation cid a now)
unfolding find_direct
direct_there a b cid now d new_pair new_id =
    rw (find_direct, pair_there a b cid now d new_pair, conversation_there a b cid now d new_id)
      refl

-- The transaction that lost takes the row of the winner.
loser_finds :
    (a b cid : Uuid) (now : Time) (k : DirectConversationKey) (c : Conversation) (d : Db)
    (w : World)
    → find_direct (min a b) (max a b) d ≡ some c
    → commit_direct b a cid now (some k) (record w { db = d; saved = d })
      ≡ (ok (some c), record w { db = d; saved = d })
unfolding commit_direct rollback
loser_finds a b cid now k c d w there = rw (min_sym b a, max_sym b a, there) refl

-- Two users who open a conversation with each other at the same time, each having found none, get the
-- same one: after the insertion of the first, with an id that is new, that of the second answers the
-- first's conversation and leaves the state as it is.
pub direct_converges :
    (a b cid cid' : Uuid) (w : World)
    → select_one (is_pair (min a b) (max a b)) w.db.direct_keys ≡ none
    → select_one (λ (c : Conversation). c.id == cid) w.db.conversations ≡ none
    → ((insert_direct a b cid w).0 ≡ ok (some (direct_conversation cid a w.now)))
      × (insert_direct b a cid' (insert_direct a b cid w).1
          ≡ (ok (some (direct_conversation cid a w.now)), (insert_direct a b cid w).1))
unfolding insert_direct
direct_converges a b cid cid' w new_pair new_id =
    let there = direct_there a b cid w.now w.db new_pair new_id in
    rw
      (
        first_inserts a b cid w new_pair,
        min_sym b a,
        max_sym b a,
        pair_there a b cid w.now w.db new_pair,
        loser_finds a b cid' w.now _ _ (with_direct a b cid w.now w.db) w there,
      )
      (refl, refl)
