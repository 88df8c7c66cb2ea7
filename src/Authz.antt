-- ===== src/Authz.antt =====
-- backend/app/services/authz.py: what a user may do in a conversation. A set of permissions is its
-- membership test.
pub mod Grants
pub mod Blocking
pub mod Visible
pub mod Sending
mod Tests
use runnerup_chat.Base.{
  ℕ, Bool, true, false, not, ◌&&◌, ◌||◌, Option, none, some, List, [], ◌∷◌, ltb, ◌==◌,
  if◌then◌else◌, is_none, select_one, select_all,
}
use runnerup_chat.Errors.{
  Result, ok, err, not_visible, account_unavailable, permission_denied, plain,
}
use runnerup_chat.Models.Accounts.{Uuid, Time, User, SystemRole, is_usable}
use runnerup_chat.Models.Chat.{
  Conversation, ConversationKind, Visibility, ConversationMember, MemberRole, MemberState,
  DirectConversationKey, Message,
}
use runnerup_chat.Models.Safety.{BlockedUser}
use runnerup_chat.World.{Db, World, Exec, pure, raise, raise_if, or_raise, gets, lift, ◌>>=◌, ◌>>◌}

pub data Permission : Type 0 where
  send_message read_messages edit_own_message delete_own_message delete_any_message : Permission
  pin_message add_member remove_member ban_member manage_conversation manage_invites : Permission
  manage_roles transfer_ownership view_reports moderate_content manage_users manage_system :
      Permission

unfoldable pub permission_code : Permission → ℕ
permission_code send_message = 0
permission_code read_messages = 1
permission_code edit_own_message = 2
permission_code delete_own_message = 3
permission_code delete_any_message = 4
permission_code pin_message = 5
permission_code add_member = 6
permission_code remove_member = 7
permission_code ban_member = 8
permission_code manage_conversation = 9
permission_code manage_invites = 10
permission_code manage_roles = 11
permission_code transfer_ownership = 12
permission_code view_reports = 13
permission_code moderate_content = 14
permission_code manage_users = 15
permission_code manage_system = 16

abbrev pub PermissionSet : Type 0
PermissionSet = Permission → Bool

-- The set with these elements.
unfoldable pub one_of : List Permission → PermissionSet
unfolding permission_code
one_of [] p = false
one_of (q ∷ qs) p = permission_code q == permission_code p || one_of qs p

-- `a | b`, `a - b`
abbrev pub union : PermissionSet → PermissionSet → PermissionSet
union g h p = g p || h p

abbrev pub minus : PermissionSet → PermissionSet → PermissionSet
minus g h p = g p && not (h p)

-- `_ROLE_RANK`
unfoldable pub role_rank : MemberRole → ℕ
role_rank MemberRole.subscriber = 0
role_rank MemberRole.member = 1
role_rank MemberRole.moderator = 2
role_rank MemberRole.admin = 3
role_rank MemberRole.owner = 4

-- `_ROLE_GRANTS`
unfoldable pub role_grants : MemberRole → PermissionSet
unfolding one_of
role_grants MemberRole.subscriber = one_of (read_messages ∷ [])
role_grants MemberRole.member =
    one_of (read_messages ∷ send_message ∷ edit_own_message ∷ delete_own_message ∷ [])
role_grants MemberRole.moderator = one_of (
    read_messages ∷ send_message ∷ edit_own_message ∷ delete_own_message ∷ delete_any_message
    ∷ pin_message ∷ [])
role_grants MemberRole.admin = one_of (
    read_messages ∷ send_message ∷ edit_own_message ∷ delete_own_message ∷ delete_any_message
    ∷ pin_message ∷ add_member ∷ remove_member ∷ ban_member ∷ manage_conversation ∷ manage_invites
    ∷ [])
role_grants MemberRole.owner =
    minus (λ p. true) (one_of (view_reports ∷ moderate_content ∷ manage_users ∷ manage_system ∷ []))

-- `_SYSTEM_GRANTS`
unfoldable pub system_grants : SystemRole → PermissionSet
unfolding one_of
system_grants SystemRole.user = one_of []
system_grants SystemRole.moderator = one_of (view_reports ∷ moderate_content ∷ [])
system_grants SystemRole.admin = one_of (view_reports ∷ moderate_content ∷ manage_users ∷ [])
system_grants SystemRole.super_admin =
    one_of (view_reports ∷ moderate_content ∷ manage_users ∷ manage_system ∷ [])

-- `_POLICY_FOR_PERMISSION`
abbrev pub policies : List (Permission × (Conversation → MemberRole))
policies =
    (send_message, λ c. c.send_policy)
    ∷ (pin_message, λ c. c.pin_policy)
    ∷ (add_member, λ c. c.invite_policy)
    ∷ (manage_invites, λ c. c.invite_policy)
    ∷ (manage_conversation, λ c. c.edit_info_policy)
    ∷ []

pub record Access : Type 0 where
  pub user : User
  pub conversation : Conversation
  pub membership : Option ConversationMember
  pub permissions : PermissionSet

-- `Access.can` and `Access.require`
abbrev pub can : Access → Permission → Bool
can a p = a.permissions p

abbrev pub require : Access → Permission → Exec (Unit {0})
require a p = raise_if (not (can a p)) (permission_denied plain)

abbrev pub role : Access → Option MemberRole
role a = elim a.membership [ none ↦ none | some m ↦ some m.role ]

-- `x and x > now`
abbrev pub is_later : Time → Option Time → Bool
is_later now none = false
is_later now (some t) = ltb now t

abbrev pub is_banned : MemberState → Bool
is_banned MemberState.banned = true
is_banned MemberState.active = false
is_banned MemberState.muted = false
is_banned MemberState.restricted = false
is_banned MemberState.left = false

abbrev pub is_restrained : MemberState → Bool
is_restrained MemberState.muted = true
is_restrained MemberState.restricted = true
is_restrained MemberState.active = false
is_restrained MemberState.banned = false
is_restrained MemberState.left = false

abbrev pub is_public : Visibility → Bool
is_public Visibility.public = true
is_public Visibility.private = false

abbrev pub is_direct : ConversationKind → Bool
is_direct ConversationKind.direct = true
is_direct ConversationKind.group = false
is_direct ConversationKind.channel = false

-- The loop over the policies: each may discard one permission.
unfoldable pub narrow :
    ℕ
    → Conversation
    → List (Permission × (Conversation → MemberRole))
    → PermissionSet
    → PermissionSet
unfolding role_rank one_of
narrow rank c [] g = g
narrow rank c ((p, policy) ∷ rest) g =
    narrow rank c rest (if ltb rank (role_rank (policy c)) then minus g (one_of (p ∷ [])) else g)

-- The part of `resolve_access` for a current member.
unfoldable pub member_grants : Time → Conversation → ConversationMember → PermissionSet
unfolding role_grants narrow one_of role_rank
member_grants now c m = narrow (role_rank m.role) c policies (
    if is_restrained m.state || is_later now m.muted_until || is_later now m.restricted_until
    then minus (role_grants m.role)
        (one_of (send_message ∷ edit_own_message ∷ pin_message ∷ add_member ∷ []))
    else role_grants m.role)

unfoldable pub visitor_grants : Conversation → Result PermissionSet
unfolding one_of
visitor_grants c =
    if is_public c.visibility then ok (one_of (read_messages ∷ [])) else err not_visible

unfoldable pub base_grants : Time → Conversation → Option ConversationMember → Result PermissionSet
base_grants now c none = visitor_grants c
base_grants now c (some m) =
    if is_none m.left_at
    then (if is_banned m.state then err not_visible else ok (member_grants now c m))
    else visitor_grants c

unfoldable pub archive_grants : Conversation → PermissionSet → PermissionSet
unfolding one_of
archive_grants c g =
    if c.is_archived then minus g (one_of (send_message ∷ edit_own_message ∷ [])) else g

-- `_direct_counterpart`
unfoldable pub direct_counterpart : List DirectConversationKey → Uuid → Uuid → Option Uuid
unfolding select_one
direct_counterpart keys conversation_id user_id =
    elim (select_one (λ k. k.conversation_id == conversation_id) keys) [
      | none ↦ none
      | some k ↦ some (if k.user_lo == user_id then k.user_hi else k.user_lo)
    ]

-- The loop of `blocking_state` over the rows that its query returns.
unfoldable pub scan_blocks : Uuid → Uuid → Bool × Bool → List BlockedUser → Bool × Bool
scan_blocks a b (x, y) [] = (x, y)
scan_blocks a b (x, y) (r ∷ rs) =
    scan_blocks a b
      (
        (if r.blocker_id == a && r.blocked_id == b then true else x),
        (if r.blocker_id == b && r.blocked_id == a then true else y),
      )
      rs

unfoldable pub blocking_state : List BlockedUser → Uuid → Uuid → Bool × Bool
unfolding scan_blocks select_all
blocking_state blocks a b =
    scan_blocks a b (false, false)
      (select_all
        (λ r. (r.blocker_id == a && r.blocked_id == b) || (r.blocker_id == b && r.blocked_id == a))
        blocks)

abbrev pub either : Bool × Bool → Bool
either (x, y) = x || y

-- Is there a block, either way, between the user and the other side of a direct conversation?
unfoldable pub is_cut_off : Db → User → Conversation → Bool
is_cut_off db u c = elim (direct_counterpart db.direct_keys c.id u.id) [
  | none ↦ false
  | some other ↦ either (blocking_state db.blocks u.id other)
]

unfoldable pub block_grants : Db → User → Conversation → PermissionSet → PermissionSet
unfolding one_of
block_grants db u c g =
    if is_direct c.kind && g send_message && is_cut_off db u c
    then minus g (one_of (send_message ∷ edit_own_message ∷ pin_message ∷ []))
    else g

-- The row of a conversation that is not deleted, and that of a membership.
abbrev pub is_live : Uuid → Conversation → Bool
is_live i c = c.id == i && is_none c.deleted_at

abbrev pub is_member_row : Uuid → Uuid → ConversationMember → Bool
is_member_row cid uid m = m.conversation_id == cid && m.user_id == uid

unfoldable pub find_conversation : Db → Uuid → Option Conversation
unfolding select_one
find_conversation db i = select_one (is_live i) db.conversations

unfoldable pub find_member : Db → Uuid → Uuid → Option ConversationMember
unfolding select_one
find_member db cid uid = select_one (is_member_row cid uid) db.members

-- The permissions once the conversation is found.
unfoldable pub grants_in : Db → Time → User → Conversation → Result PermissionSet
grants_in db now u c = elim (base_grants now c (find_member db c.id u.id)) [
  | err e ↦ err e
  | ok g ↦ ok (union (block_grants db u c (archive_grants c g)) (system_grants u.system_role))
]

unfoldable pub resolve_access : User → Uuid → Exec Access
resolve_access u cid = do
  raise_if (not (is_usable u)) account_unavailable
  c ← or_raise (← gets (λ w. find_conversation w.db cid)) not_visible
  membership ← gets (λ w. find_member w.db c.id u.id)
  granted ← (λ w. (grants_in w.db w.now u c, w))
  pure (record { user = u; conversation = c; membership = membership; permissions = granted })

unfoldable pub require_permission : User → Uuid → Permission → Exec Access
require_permission u cid p = do access ← resolve_access u cid; require access p; pure access

unfoldable pub resolve_message_access : User → Uuid → Exec (Message × Access)
resolve_message_access u mid = do
  message ←
      or_raise (← gets (λ w. select_one (λ (m : Message). m.id == mid) w.db.messages)) not_visible
  access ← resolve_access u message.conversation_id
  require access read_messages
  pure (message, access)

-- `message.sender_id == access.user.id`
abbrev pub is_sender : Access → Message → Bool
is_sender a m = elim m.sender_id [ none ↦ false | some s ↦ s == a.user.id ]

unfoldable pub can_modify_message : Access → Message → Bool
can_modify_message a m =
    if not (is_none m.deleted_at)
    then false
    else if is_sender a m
    then can a edit_own_message
    else false

unfoldable pub can_delete_message : Access → Message → Bool
can_delete_message a m =
    if is_sender a m && can a delete_own_message then true else can a delete_any_message

unfoldable pub assert_can_direct_message : User → Uuid → Exec (Unit {0})
assert_can_direct_message sender recipient = do
  blocked ← gets (λ w. blocking_state w.db.blocks sender.id recipient)
  raise_if (either blocked) not_visible

unfoldable pub require_system_permission : User → Permission → Exec (Unit {0})
unfolding system_grants
require_system_permission u p =
    raise_if (not (system_grants u.system_role p)) (permission_denied plain)
