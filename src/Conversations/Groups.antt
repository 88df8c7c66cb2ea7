-- ===== src/Conversations/Groups.antt =====
-- backend/app/services/conversations.py: new groups and channels, and the list of a user's conversations,
-- with the constraints of migrations/0001_init.sql that their rows meet.
use runnerup_chat.Base.{
  ℕ, ◌-◌, Bool, true, false, not, ◌&&◌, ◌||◌, Option, none, some, List, [], ◌∷◌, ◌++◌, map, take,
  length, leb, ltb, ◌==◌, is_none, is_some, select_one, select_all, if◌then◌else◌,
}
use runnerup_chat.Errors.{
  Result, ok, err, validation_failed, not_visible, integrity_error, invalid_title,
  public_requires_slug,
}
use runnerup_chat.Texts.{ascii_lower, is_space, same_text, strip_of}
use runnerup_chat.Models.Accounts.{Uuid, Text, User}
use runnerup_chat.Models.Chat.{
  Conversation, ConversationKind, Visibility, ConversationMember, MemberRole, PreviewPolicy,
}
use runnerup_chat.Models.Safety.{AuditAction}
use runnerup_chat.World.{
  Exec, LimitName, Identity, pure, gets, raise_if, execute, commit, record_audit, when, ◌>>=◌, ◌>>◌,
}
use runnerup_chat.Authz.{assert_can_direct_message, find_member, is_banned, is_public}
use runnerup_chat.Ratelimit.{enforce}
use runnerup_chat.Messages.Read.{sort_by}
use runnerup_chat.Conversations.{new_member, set_members}
use runnerup_chat.Conversations.Create.{new_conversation}

abbrev is_alnum : ℕ → Bool
is_alnum c = (leb b'a' c && leb c b'z') || (leb b'0' c && leb c b'9')

abbrev all_of : (ℕ → Bool) → Text → Bool
all_of p [] = true
all_of p (c ∷ cs) = p c && all_of p cs

-- The check on slugs, a column in which letters of either case are the same.
abbrev is_slug : Text → Bool
is_slug [] = false
is_slug (c ∷ cs) =
    is_alnum (ascii_lower c)
    && all_of (λ x. is_alnum (ascii_lower x) || x == b'_' || x == b'-') cs
    && leb 2 (length cs)
    && leb (length cs) 31

abbrev has_slug : Text → Conversation → Bool
has_slug s c = elim c.slug [
  | none ↦ false
  | some t ↦ same_text (map ascii_lower t) (map ascii_lower s)
]

-- What the flush of a new conversation refuses.
abbrev pub slug_refused : Option Text → List Conversation → Bool
slug_refused none cs = false
slug_refused (some s) cs = not (is_slug s) || is_some (select_one (has_slug s) cs)

abbrev pub is_channel : ConversationKind → Bool
is_channel ConversationKind.channel = true
is_channel ConversationKind.group = false
is_channel ConversationKind.direct = false

abbrev pub is_missing : Option Text → Bool
is_missing none = true
is_missing (some []) = true
is_missing (some (c ∷ cs)) = false

abbrev pub is_empty : Text → Bool
is_empty [] = true
is_empty (c ∷ cs) = false

-- `try: ... except NotVisible: continue`
abbrev passes : Result (Unit {0}) → Result Bool
passes (ok t) = ok true
passes (err not_visible) = ok false
passes (err e) = err e

abbrev is_allowed : Exec (Unit {0}) → Exec Bool
is_allowed m w = let (r, v) = m w in (passes r, v)

-- The row of a seeded member, whose user must exist and must not be seeded before.
unfoldable pub seed_member : Uuid → (creator : Uuid) → MemberRole → Uuid → Exec (Unit {0})
seed_member cid creator r member_id = do
  known ← gets (λ w. select_one (λ (u : User). u.id == member_id) w.db.users)
  before ← gets (λ w. find_member w.db cid member_id)
  raise_if (is_none known || is_some before) integrity_error
  set_members (λ ms. ms ++ new_member cid member_id r (some creator) ∷ [])

-- The loop over the ids, of which those of the creator and of users with a block between are left out.
unfoldable pub seed_members : User → Uuid → MemberRole → List Uuid → Exec (Unit {0})
seed_members u cid r [] = pure tt
seed_members u cid r (m ∷ ms) =
    let rest = seed_members u cid r ms in
    if m == u.id then rest else (do
      fine ← is_allowed (assert_can_direct_message u m)
      when fine (seed_member cid u.id r m)
      rest)

unfoldable pub create_group :
    User
    → (title : Text) → ConversationKind
    → Visibility
    → (slug : Option Text) → List Uuid
    → (cid : Uuid) → Exec Conversation
create_group u title kind visibility slug member_ids cid = do
  enforce LimitName.conversation_create_user (Identity.known u.id)
  raise_if (is_empty (strip_of is_space title) || ltb 128 (length title))
      (validation_failed invalid_title)
  raise_if (is_public visibility && is_missing slug) (validation_failed public_requires_slug)
  now ← gets (λ w. w.now)
  refused ← gets (λ w. slug_refused slug w.db.conversations)
  raise_if refused integrity_error
  let c =
      new_conversation cid kind visibility slug (some (strip_of is_space title)) u.id
        (if is_channel kind then MemberRole.admin else MemberRole.member) 512 now
  execute (λ d. record d { conversations = d.conversations ++ c ∷ [] })
  set_members (λ ms. ms ++ new_member cid u.id MemberRole.owner none ∷ [])
  seed_members u cid (if is_channel kind then MemberRole.subscriber else MemberRole.member)
      (take 200 member_ids)
  record_audit (record {
    action = AuditAction.conversation_created;
    actor_id = some u.id;
    actor_role = some u.system_role;
    target_id = some cid;
  })
  commit
  pure c

pub record ConversationSummary : Type 0 where
  pub id : Uuid
  pub kind : ConversationKind
  pub visibility : Visibility
  pub title : Option Text
  pub slug : Option Text
  pub last_seq : ℕ
  pub unread : ℕ
  pub role : MemberRole
  pub muted : Bool

abbrev is_muted : PreviewPolicy → Bool
is_muted PreviewPolicy.muted = true
is_muted PreviewPolicy.show_preview = false
is_muted PreviewPolicy.hide_preview = false
is_muted PreviewPolicy.mentions_only = false

abbrev pub overview : Conversation × ConversationMember → ConversationSummary
overview (c, m) = record {
  id = c.id;
  kind = c.kind;
  visibility = c.visibility;
  title = c.title;
  slug = c.slug;
  last_seq = c.last_seq;
  unread = c.last_seq - m.last_read_seq;
  role = m.role;
  muted = is_muted m.notify_policy;
}

abbrev pub is_membership_of : Uuid → ConversationMember → Bool
is_membership_of uid m = m.user_id == uid && is_none m.left_at && not (is_banned m.state)

-- The join of memberships with conversations that are not deleted.
unfoldable pub join_rows :
    List Conversation → List ConversationMember → List (Conversation × ConversationMember)
join_rows cs [] = []
join_rows cs (m ∷ ms) =
    elim (select_one (λ (c : Conversation). c.id == m.conversation_id && is_none c.deleted_at) cs) [
      | none ↦ join_rows cs ms
      | some c ↦ (c, m) ∷ join_rows cs ms
    ]

unfoldable pub list_for_user : User → (limit : ℕ) → Exec (List ConversationSummary)
list_for_user u limit = gets (λ w. map overview (
    take limit (
      sort_by (λ (a b : Conversation × ConversationMember). ltb b.0.updated_at a.0.updated_at)
        (join_rows w.db.conversations (select_all (is_membership_of u.id) w.db.members)))))
