-- ===== src/Authz/Sending.antt =====
-- When `resolve_access` of services/authz.py grants SEND_MESSAGE.
use runnerup_chat.Base.{
  ◌≤◌, ◌≡◌, refl, sym, ap, ◌∙◌, ◌↔◌, inl, inr, Bool, true, false, not, ◌&&◌, ◌||◌, none, some, [],
  ◌∷◌, arith, Bool-cases, Option-cases, is_none, ltb,
}
use runnerup_chat.Errors.{ok, err, not_visible}
use runnerup_chat.Models.Accounts.{Uuid, Time, User, SystemRole, is_usable}
use runnerup_chat.Models.Chat.{Conversation, ConversationMember, MemberRole}
use runnerup_chat.World.{Db, World}
use runnerup_chat.Authz.{
  Access, PermissionSet, permission_code, one_of, read_messages, send_message, is_banned, is_public,
  is_direct, role_rank, find_conversation, find_member, base_grants, archive_grants, block_grants,
  system_grants, grants_in, resolve_access, is_cut_off, visitor_grants, role_grants, can,
  direct_counterpart, member_grants,
}
use runnerup_chat.Authz.Visible.{
  unusable, hidden, shown, resolve_access-Outcome, resolve_access-Resolved,
}
use runnerup_chat.Authz.Grants.{member_grants_lem, is_silenced}
use runnerup_chat.Authz.Blocking.{has_blocked, blocking_state_lem}

-- Neither side of a direct conversation has blocked the other.
pub record Unblocked (db : Db) (u : User) (c : Conversation) : Type 0 where
  pub no_block :
      (other : Uuid)
      → direct_counterpart db.direct_keys c.id u.id ≡ some other
      → (has_blocked db.blocks u.id other ≡ false) × (has_blocked db.blocks other u.id ≡ false)

-- What sending takes.
pub record MaySend (w : World) (u : User) (cid : Uuid) : Type 0 where
  pub conversation : Conversation
  pub member : ConversationMember
  pub usable : is_usable u ≡ true
  pub found : find_conversation w.db cid ≡ some conversation
  pub joined : find_member w.db conversation.id u.id ≡ some member
  pub current : member.left_at ≡ none
  pub not_banned : is_banned member.state ≡ false
  pub not_silenced : is_silenced w.now member ≡ false
  pub above_subscriber : 1 ≤ role_rank member.role
  pub admitted : role_rank conversation.send_policy ≤ role_rank member.role
  pub not_archived : conversation.is_archived ≡ false
  pub not_blocked : is_direct conversation.kind ≡ true → Unblocked w.db u conversation

system_grants-send : (s : SystemRole) → system_grants s send_message ≡ false
unfolding system_grants
system_grants-send SystemRole.user = refl
system_grants-send SystemRole.moderator = refl
system_grants-send SystemRole.admin = refl
system_grants-send SystemRole.super_admin = refl

role_grants-send : (r : MemberRole) → role_grants r send_message ≡ ltb 0 (role_rank r)
unfolding role_grants role_rank
role_grants-send MemberRole.subscriber = refl
role_grants-send MemberRole.member = refl
role_grants-send MemberRole.moderator = refl
role_grants-send MemberRole.admin = refl
role_grants-send MemberRole.owner = refl

-- The test of a member for sending, before archiving and blocks.
abbrev speaks : Time → Conversation → ConversationMember → Bool
speaks now c m =
    (ltb 0 (role_rank m.role) && not (is_silenced now m))
    && not (ltb (role_rank m.role) (role_rank c.send_policy))

member_grants-send :
    (now : Time) (c : Conversation) (m : ConversationMember)
    → member_grants now c m send_message ≡ speaks now c m
unfolding permission_code one_of
member_grants-send now c m =
    ground (arith, member_grants_lem now c m send_message, role_grants-send m.role)

-- Sending, after the steps that follow the member's own grants.
archived-send :
    (c : Conversation) (g : PermissionSet)
    → archive_grants c g send_message ≡ (g send_message && not c.is_archived)
unfolding archive_grants
archived-send c g = ground arith

blocked-send :
    (db : Db) (u : User) (c : Conversation) (g : PermissionSet)
    → block_grants db u c g send_message
      ≡ (g send_message && not (is_direct c.kind && is_cut_off db u c))
unfolding block_grants one_of
blocked-send db u c g = ground arith

visitor_grants-send :
    (c : Conversation) (g : PermissionSet) → visitor_grants c ≡ ok g → g send_message ≡ false
unfolding visitor_grants permission_code
visitor_grants-send c g e = ground arith

-- What the whole set says of sending: nothing to a visitor, and to a current member the tests in a row.
all_tests : Db → Time → User → Conversation → ConversationMember → Bool
all_tests db now u c m =
    (speaks now c m && not c.is_archived) && not (is_direct c.kind && is_cut_off db u c)

later-send :
    (db : Db) (u : User) (c : Conversation) (g : PermissionSet)
    → (block_grants db u c (archive_grants c g) send_message
        || system_grants u.system_role send_message)
      ≡ ((g send_message && not c.is_archived) && not (is_direct c.kind && is_cut_off db u c))
later-send db u c g =
    rw
      (
        blocked-send db u c (archive_grants c g),
        archived-send c g,
        system_grants-send u.system_role,
      )
      (ground arith)

module _ (db : Db) (now : Time) (u : User) (c : Conversation) (h : PermissionSet) where
  abbrev finished : PermissionSet → PermissionSet
  finished g p = block_grants db u c (archive_grants c g) p || system_grants u.system_role p

  finished_lem :
      (g : PermissionSet)
      → base_grants now c (find_member db c.id u.id) ≡ ok g
      → grants_in db now u c ≡ ok h
      → finished g ≡ h
  unfolding grants_in
  finished_lem g base e = cc (e, base)

  refused_lem :
      base_grants now c (find_member db c.id u.id) ≡ err not_visible
      → grants_in db now u c ≡ err not_visible
  unfolding grants_in
  refused_lem e = rw (e, grants_in) refl

  member-send :
      (m : ConversationMember)
      → find_member db c.id u.id ≡ some m
      → is_none m.left_at ≡ true
      → is_banned m.state ≡ false
      → grants_in db now u c ≡ ok h
      → h send_message ≡ all_tests db now u c m
  unfolding all_tests base_grants
  member-send m e current welcome g =
      ap (λ (f : PermissionSet). f send_message)
        (sym (finished_lem (member_grants now c m) (rw (e, current, welcome) refl) g))
      ∙ later-send db u c (member_grants now c m)
      ∙ rw (member_grants-send now c m)

  visitor-send :
      base_grants now c (find_member db c.id u.id) ≡ visitor_grants c
      → grants_in db now u c ≡ ok h
      → h send_message ≡ false
  unfolding visitor_grants permission_code
  visitor-send e g = elim (Bool-cases (is_public c.visibility)) [
    | inl open_to_all ↦
        ap (λ (f : PermissionSet). f send_message)
          (sym
            (finished_lem (one_of (read_messages ∷ [])) (e ∙ rw (open_to_all, visitor_grants)) g))
        ∙ later-send db u c (one_of (read_messages ∷ []))
    | inr closed ↦ cc (g, refused_lem (e ∙ rw (closed, visitor_grants)))
  ]

module _ (u : User) (cid : Uuid) (w : World) where
  abbrev pub CanSend : Type 0
  CanSend = (a : Access) × (resolve_access u cid w ≡ (ok a, w)) × (can a send_message ≡ true)

  tests-Unblocked :
      (c : Conversation)
      → (is_direct c.kind && is_cut_off w.db u c) ≡ false
      → is_direct c.kind ≡ true
      → Unblocked w.db u c
  unfolding is_cut_off
  tests-Unblocked c e d = record {
    no_block = λ other k. ground (arith, blocking_state_lem w.db.blocks u.id other);
  }

  Unblocked-tests :
      (c : Conversation)
      → (is_direct c.kind ≡ true → Unblocked w.db u c)
      → (is_direct c.kind && is_cut_off w.db u c) ≡ false
  unfolding is_cut_off
  Unblocked-tests c h = elim (Bool-cases (is_direct c.kind)) [
    | inr other_kind ↦ rw other_kind refl
    | inl two ↦ elim (Option-cases (direct_counterpart w.db.direct_keys c.id u.id)) [
      | inl alone ↦ rw (alone, is_cut_off) (ground arith)
      | inr (other, k) ↦
          let free = (h two).no_block other k in
          rw (k, is_cut_off) (ground (arith, blocking_state_lem w.db.blocks u.id other))
    ]
  ]

  tests-MaySend :
      (c : Conversation) (m : ConversationMember)
      → is_usable u ≡ true
      → find_conversation w.db cid ≡ some c
      → find_member w.db c.id u.id ≡ some m
      → is_none m.left_at ≡ true
      → is_banned m.state ≡ false
      → all_tests w.db w.now u c m ≡ true
      → MaySend w u cid
  unfolding all_tests
  tests-MaySend c m ok_user found joined current welcome t = record {
    conversation = c;
    member = m;
    usable = ok_user;
    found = found;
    joined = joined;
    current = ground arith;
    not_banned = welcome;
    not_silenced = ground arith;
    above_subscriber = ground arith;
    admitted = ground arith;
    not_archived = ground arith;
    not_blocked = tests-Unblocked c (ground arith);
  }

  CanSend-MaySend : CanSend → MaySend w u cid
  unfolding base_grants
  CanSend-MaySend (a, e, s) =
      let (r, same) = resolve_access-Resolved u cid w w a e in
      let c = a.conversation in
      elim (Option-cases (find_member w.db c.id u.id)) [
        | inl stranger ↦ absurd (
            cc (
              s,
              visitor-send w.db w.now u c a.permissions (rw (stranger, base_grants) refl) r.granted,
            ))
        | inr (m, j) ↦ elim (Option-cases m.left_at) [
          | inr (when_left, gone) ↦ absurd (
              cc (
                s,
                visitor-send w.db w.now u c a.permissions (rw (j, base_grants) (rw gone refl))
                    r.granted,
              ))
          | inl current ↦ elim (Bool-cases (is_banned m.state)) [
            | inl banned ↦ absurd (
                cc (
                  r.granted,
                  refused_lem w.db w.now u c a.permissions
                      (rw (j, base_grants) (rw (current, banned) refl)),
                ))
            | inr welcome ↦ tests-MaySend c m r.usable r.found j (rw current refl) welcome (
                sym
                  (member-send w.db w.now u c a.permissions m j (rw current refl) welcome r.granted)
                ∙ s)
          ]
        ]
      ]

  MaySend-tests : (v : MaySend w u cid) → all_tests w.db w.now u v.conversation v.member ≡ true
  unfolding all_tests
  MaySend-tests v = ground (arith, Unblocked-tests v.conversation v.not_blocked)

  MaySend-CanSend : MaySend w u cid → CanSend
  MaySend-CanSend v = elim (resolve_access-Outcome u cid w) [
    | unusable bad e ↦ absurd (cc (bad, v.usable))
    | hidden good h e ↦ absurd (
        h (record {
          conversation = v.conversation;
          found = v.found;
          seen = ground (arith, v.joined, v.current, v.not_banned);
        }))
    | shown a seen r e ↦
        let same : a.conversation ≡ v.conversation = cc (r.found, v.found) in
        (
          a,
          e,
          member-send w.db w.now u v.conversation a.permissions v.member v.joined
                (rw v.current refl) v.not_banned (rw same at r.granted)
              ∙ MaySend-tests v,
        )
  ]

  -- The permission to send is in the set that `resolve_access` returns exactly when all of this holds:
  -- the account is usable and the conversation exists; the user is a current member, not banned, muted
  -- or restricted, of a role above subscriber and not below the conversation's threshold for sending;
  -- the conversation is not archived; and in a direct conversation neither side has blocked the other.
  pub send_allowed : CanSend ↔ MaySend w u cid
  send_allowed = (CanSend-MaySend, MaySend-CanSend)
