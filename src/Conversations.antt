-- ===== src/Conversations.antt =====
-- backend/app/services/conversations.py: members, roles and invite links. Ids and tokens are drawn anew
-- by each call and given as arguments.
pub mod Roles
pub mod Invites
pub mod Create
pub mod Groups
pub mod Direct
pub mod Founding
mod Tests
use runnerup_chat.Base.{
  ℕ, ◌+◌, Bool, true, false, not, ◌&&◌, ◌||◌, Option, none, some, List, [], ◌∷◌, ◌++◌, ◌==◌, leb,
  if◌then◌else◌, is_none, is_some, select_one, update_rows, count_rows,
}
use runnerup_chat.Config.{seconds}
use runnerup_chat.Errors.{
  permission_denied, validation_failed, not_visible, integrity_error, cannot_grant_owner,
  member_limit_reached, user_is_banned, cannot_grant_equal_or_higher_role,
  cannot_modify_peer_or_superior,
}
use runnerup_chat.Security.{Platform}
use runnerup_chat.Models.Accounts.{Uuid, Text, Time, User}
use runnerup_chat.Models.Chat.{
  Conversation, ConversationKind, ConversationMember, MemberRole, MemberState, PreviewPolicy,
  InviteLink,
}
use runnerup_chat.Models.Safety.{AuditLog, AuditAction}
use runnerup_chat.World.{
  ◌>>=◌, ◌>>◌, Exec, LimitName, Identity, gets, or_raise, raise_if, execute, commit, record_audit,
  pure,
}
use runnerup_chat.Authz.{
  Access, Permission, require, role, role_rank, is_banned, is_live, is_member_row, find_member,
}
use runnerup_chat.Ratelimit.{enforce}

-- `ConversationMember(...)` with the columns' defaults.
abbrev pub new_member : Uuid → Uuid → MemberRole → Option Uuid → ConversationMember
new_member cid uid r inviter = record {
  conversation_id = cid;
  user_id = uid;
  role = r;
  state = MemberState.active;
  muted_until = none;
  restricted_until = none;
  last_read_seq = 0;
  notify_policy = PreviewPolicy.show_preview;
  invited_by = inviter;
  left_at = none;
}

abbrev pub rejoin : ConversationMember → ConversationMember
rejoin m = record m { left_at = none; state = MemberState.active }

abbrev pub is_current_member : Uuid → ConversationMember → Bool
is_current_member cid m = m.conversation_id == cid && is_none m.left_at

abbrev pub is_owner : MemberRole → Bool
is_owner MemberRole.owner = true
is_owner MemberRole.admin = false
is_owner MemberRole.moderator = false
is_owner MemberRole.member = false
is_owner MemberRole.subscriber = false

abbrev noted : AuditAction → Uuid → Uuid → AuditLog
noted action actor target = record {
  action = action;
  actor_id = some actor;
  actor_role = none;
  target_id = some target;
}

abbrev pub set_members : (List ConversationMember → List ConversationMember) → Exec (Unit {0})
set_members f = execute (λ d. record d { members = f d.members })

-- The index `one_owner_per_conversation`: is there another current owner?
abbrev pub is_other_owner : Uuid → Uuid → ConversationMember → Bool
is_other_owner cid uid m = is_current_member cid m && is_owner m.role && not (m.user_id == uid)

-- The row of somebody who was a member before, which comes back if that gives the conversation no second
-- owner; or a new one, if the user exists, as its foreign key wants.
unfoldable pub join :
    Uuid → Uuid → MemberRole → Option Uuid → Option ConversationMember → Exec (Unit {0})
join cid uid r inviter (some m) = do
  rival ← gets (λ w. select_one (is_other_owner cid uid) w.db.members)
  raise_if (is_owner m.role && is_some rival) integrity_error
  set_members (update_rows (is_member_row cid uid) rejoin)
join cid uid r inviter none = do
  known ← gets (λ w. select_one (λ (u : User). u.id == uid) w.db.users)
  raise_if (is_none known) integrity_error
  set_members (λ ms. ms ++ new_member cid uid r inviter ∷ [])

abbrev pub was_banned : Option ConversationMember → Bool
was_banned none = false
was_banned (some m) = is_banned m.state

unfoldable pub add_member : Access → (new_member_id : Uuid) → MemberRole → Exec (Unit {0})
add_member access new_member_id r = do
  require access Permission.add_member
  raise_if (is_owner r) (permission_denied cannot_grant_owner)
  count ← gets (λ w. count_rows (is_current_member access.conversation.id) w.db.members)
  raise_if (leb access.conversation.member_limit count) (validation_failed member_limit_reached)
  existing ← gets (λ w. find_member w.db access.conversation.id new_member_id)
  raise_if (was_banned existing) (permission_denied user_is_banned)
  join access.conversation.id new_member_id r (some access.user.id) existing
  record_audit (noted AuditAction.member_added access.user.id access.conversation.id)
  commit

-- `_ROLE_RANK.get(access.role or "", 0)`
unfoldable pub actor_rank : Access → ℕ
actor_rank access = elim access.membership [ none ↦ 0 | some m ↦ role_rank m.role ]

abbrev pub with_role : MemberRole → ConversationMember → ConversationMember
with_role r m = record m { role = r }

unfoldable pub change_role : Access → (member_id : Uuid) → MemberRole → Exec (Unit {0})
change_role access member_id new_role = do
  require access Permission.manage_roles
  raise_if (leb (actor_rank access) (role_rank new_role))
      (permission_denied cannot_grant_equal_or_higher_role)
  m ← or_raise (← gets (λ w. find_member w.db access.conversation.id member_id)) not_visible
  raise_if (leb (actor_rank access) (role_rank m.role))
      (permission_denied cannot_modify_peer_or_superior)
  set_members (update_rows (is_member_row access.conversation.id member_id) (with_role new_role))
  record_audit (noted AuditAction.role_changed access.user.id access.conversation.id)
  commit

-- `if expires_in_seconds:`
abbrev expiry : Time → Option ℕ → Option Time
expiry now none = none
expiry now (some n) = if n == 0 then none else some (now + seconds n)

abbrev pub use_once : InviteLink → InviteLink
use_once i = record i { use_count = i.use_count + 1 }

-- `invite.max_uses is not None and invite.use_count >= invite.max_uses`
abbrev pub is_used_up : InviteLink → Bool
is_used_up i = elim i.max_uses [ none ↦ false | some n ↦ leb n i.use_count ]

abbrev pub is_over : Time → InviteLink → Bool
is_over now i = elim i.expires_at [ none ↦ false | some t ↦ leb t now ]

abbrev pub is_dead : Time → InviteLink → Bool
is_dead now i = is_some i.revoked_at || is_over now i || is_used_up i

abbrev pub joining_role : ConversationKind → MemberRole
joining_role ConversationKind.channel = MemberRole.subscriber
joining_role ConversationKind.group = MemberRole.member
joining_role ConversationKind.direct = MemberRole.member

module _ (os : Platform) where
  -- The table checks that `max_uses` is above 0.
  unfoldable pub create_invite :
      Access
      → (max_uses expires_in_seconds : Option ℕ) (requires_approval : Bool) (invite_id : Uuid)
        (token : Text)
      → Exec Text
  create_invite access max_uses expires_in_seconds requires_approval invite_id token = do
    require access Permission.manage_invites
    enforce LimitName.invite_create_user (Identity.known access.user.id)
    now ← gets (λ w. w.now)
    raise_if (elim max_uses [ none ↦ false | some n ↦ n == 0 ]) integrity_error
    execute (λ d. record d {
      invites =
          d.invites
          ++ record {
            id = invite_id;
            conversation_id = access.conversation.id;
            token_hash = os.sha256 token;
            created_by = some access.user.id;
            max_uses = max_uses;
            use_count = 0;
            requires_approval = requires_approval;
            expires_at = expiry now expires_in_seconds;
            revoked_at = none;
          }
            ∷ [];
    })
    record_audit (noted AuditAction.invite_created access.user.id access.conversation.id)
    commit
    pure token

  unfoldable pub redeem_invite : User → Text → Exec Conversation
  redeem_invite u token = do
    i ←
        or_raise
          (← gets
            (λ w. select_one (λ (i : InviteLink). i.token_hash == os.sha256 token) w.db.invites))
          not_visible
    now ← gets (λ w. w.now)
    raise_if (is_dead now i) not_visible
    m ← gets (λ w. find_member w.db i.conversation_id u.id)
    raise_if (was_banned m) not_visible
    c ←
        or_raise (← gets (λ w. select_one (is_live i.conversation_id) w.db.conversations))
          not_visible
    join c.id u.id (joining_role c.kind) none m
    execute (λ d. record d {
      invites = update_rows (λ (r : InviteLink). r.id == i.id) use_once d.invites;
    })
    record_audit (noted AuditAction.invite_redeemed u.id c.id)
    commit
    pure c
