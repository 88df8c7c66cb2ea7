-- ===== src/Conversations/Create.antt =====
-- backend/app/services/conversations.py: how a direct conversation is found or made.
use runnerup_chat.Base.{
  ℕ, min, max, Bool, false, not, ◌&&◌, Option, none, some, [], ◌∷◌, ◌++◌, ◌==◌, select_one,
}
use runnerup_chat.Errors.{validation_failed, not_visible, cannot_message_self}
use runnerup_chat.Models.Accounts.{Uuid, Text, Time, User, is_usable}
use runnerup_chat.Models.Chat.{
  Conversation, ConversationKind, Visibility, DirectConversationKey, MemberRole,
}
use runnerup_chat.World.{
  Db, Exec, pure, gets, or_raise, raise_if, execute, commit, rollback, ◌>>=◌, ◌>>◌,
}
use runnerup_chat.Authz.{assert_can_direct_message}
use runnerup_chat.Conversations.{new_member}

-- `Conversation(...)` with the columns' defaults.
abbrev pub new_conversation :
    Uuid
    → ConversationKind
    → Visibility
    → (slug title : Option Text) → (creator : Uuid) → (send_policy : MemberRole)
    → (member_limit : ℕ) → Time
    → Conversation
new_conversation cid kind visibility slug title creator send_policy member_limit now = record {
  id = cid;
  kind = kind;
  visibility = visibility;
  slug = slug;
  title = title;
  created_by = some creator;
  last_seq = 0;
  send_policy = send_policy;
  invite_policy = MemberRole.admin;
  pin_policy = MemberRole.admin;
  edit_info_policy = MemberRole.admin;
  member_limit = member_limit;
  is_archived = false;
  updated_at = now;
  deleted_at = none;
}

abbrev pub is_pair : (lo hi : Uuid) → DirectConversationKey → Bool
is_pair lo hi k = k.user_lo == lo && k.user_hi == hi

-- The join of the two tables on the pair.
unfoldable pub find_direct : (lo hi : Uuid) → Db → Option Conversation
find_direct lo hi db = elim (select_one (is_pair lo hi) db.direct_keys) [
  | none ↦ none
  | some k ↦ select_one (λ (c : Conversation). c.id == k.conversation_id) db.conversations
]

abbrev pub direct_conversation : Uuid → Uuid → Time → Conversation
direct_conversation cid creator now =
    new_conversation cid ConversationKind.direct Visibility.private none none creator
      MemberRole.member 2 now

-- The tables with a new direct conversation of two users.
abbrev pub with_direct : (user_id other_id cid : Uuid) → Time → Db → Db
with_direct user_id other_id cid now d = record d {
  conversations = d.conversations ++ direct_conversation cid user_id now ∷ [];
  direct_keys =
      d.direct_keys
      ++ record {
        conversation_id = cid;
        user_lo = min user_id other_id;
        user_hi = max user_id other_id;
      }
        ∷ [];
  members =
      d.members
      ++ new_member cid user_id MemberRole.member none
        ∷ new_member cid other_id MemberRole.member none
        ∷ [];
}

-- The commit, which the unique pair refuses if another transaction has won.
unfoldable pub commit_direct :
    (user_id other_id cid : Uuid) → Time → Option DirectConversationKey → Exec (Option Conversation)
commit_direct user_id other_id cid now (some k) = do
  rollback
  gets (λ w. find_direct (min user_id other_id) (max user_id other_id) w.db)
commit_direct user_id other_id cid now none = do
  execute (with_direct user_id other_id cid now)
  commit
  pure (some (direct_conversation cid user_id now))

-- What follows a search that found nothing. The ordered pair of two uuids as texts is that of their
-- numbers.
unfoldable pub insert_direct : (user_id other_id cid : Uuid) → Exec (Option Conversation)
insert_direct user_id other_id cid = do
  now ← gets (λ w. w.now)
  winner ←
      gets
        (λ w. select_one (is_pair (min user_id other_id) (max user_id other_id)) w.db.direct_keys)
  commit_direct user_id other_id cid now winner

abbrev pub or_insert :
    (user_id other_id cid : Uuid) → Option Conversation → Exec (Option Conversation)
or_insert user_id other_id cid (some c) = pure (some c)
or_insert user_id other_id cid none = insert_direct user_id other_id cid

-- Without an answer if the winner of a race is gone again.
unfoldable pub get_or_create_direct : User → (other_id cid : Uuid) → Exec (Option Conversation)
get_or_create_direct u other_id cid = do
  raise_if (other_id == u.id) (validation_failed cannot_message_self)
  other ←
      or_raise (← gets (λ w. select_one (λ (r : User). r.id == other_id) w.db.users)) not_visible
  raise_if (not (is_usable other)) not_visible
  assert_can_direct_message u other_id
  existing ← gets (λ w. find_direct (min u.id other_id) (max u.id other_id) w.db)
  or_insert u.id other_id cid existing
