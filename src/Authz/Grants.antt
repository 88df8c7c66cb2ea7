-- ===== src/Authz/Grants.antt =====
-- The tables of roles in services/authz.py, and the policies that narrow them.
use runnerup_chat.Base.{
  ℕ, ◌≤◌, ◌≡◌, ◌∙◌, inl, inr, Bool, true, false, not, ◌&&◌, ◌||◌, List, [], ◌∷◌, arith, ltb,
  Bool-cases, ◌==◌, if◌then◌else◌,
}
use runnerup_chat.Models.Accounts.{SystemRole, Time}
use runnerup_chat.Models.Chat.{MemberRole, Conversation, ConversationMember}
use runnerup_chat.Authz.{
  Permission, permission_code, role_rank, role_grants, system_grants, narrow, policies,
  member_grants, minus, one_of, PermissionSet, is_restrained, is_later, send_message,
  edit_own_message, pin_message, add_member,
}

-- The roles of a conversation form a chain: a stronger role grants all that a weaker one does.
role_grants_mono :
    (r s : MemberRole) (p : Permission)
    → role_rank r ≤ role_rank s
    → role_grants r p ≡ true
    → role_grants s p ≡ true
unfolding role_rank role_grants
role_grants_mono MemberRole.subscriber s p h g = ground arith
role_grants_mono MemberRole.member s p h g = ground arith
role_grants_mono MemberRole.moderator s p h g = ground arith
role_grants_mono MemberRole.admin s p h g = ground arith
role_grants_mono MemberRole.owner s p h g = ground arith

-- A platform role grants nothing that any role in a conversation grants: staff do not read or write
-- in conversations by being staff, and no member gets a staff permission by being a member.
system_grants_disjoint :
    (s : SystemRole) (r : MemberRole) (p : Permission)
    → system_grants s p ≡ true
    → role_grants r p ≡ false
unfolding system_grants role_grants
system_grants_disjoint s MemberRole.subscriber p h = ground arith
system_grants_disjoint s MemberRole.member p h = ground arith
system_grants_disjoint s MemberRole.moderator p h = ground arith
system_grants_disjoint s MemberRole.admin p h = ground arith
system_grants_disjoint s MemberRole.owner p h = ground arith

-- The policies for `p` all admit the rank.
abbrev pub passes :
    ℕ → Conversation → List (Permission × (Conversation → MemberRole)) → PermissionSet
passes rank c [] p = true
passes rank c ((q, policy) ∷ rest) p =
    (if permission_code q == permission_code p then not (ltb rank (role_rank (policy c))) else true)
    && passes rank c rest p

narrow-passes :
    (rank : ℕ) (c : Conversation) (ps : List (Permission × (Conversation → MemberRole)))
    (g : PermissionSet) (p : Permission)
    → narrow rank c ps g p ≡ (g p && passes rank c ps p)
unfolding narrow one_of
narrow-passes rank c [] g p = ground arith
narrow-passes rank c ((q, policy) ∷ rest) g p =
    elim (Bool-cases (ltb rank (role_rank (policy c)))) [
      | inl low ↦ rw low (narrow-passes rank c rest (minus g (one_of (q ∷ []))) p ∙ ground arith)
      | inr high ↦ rw high (narrow-passes rank c rest g p ∙ ground arith)
    ]

-- The test under which a current member's write permissions are taken away.
abbrev pub is_silenced : Time → ConversationMember → Bool
is_silenced now m =
    is_restrained m.state || is_later now m.muted_until || is_later now m.restricted_until

pub member_grants_lem :
    (now : Time) (c : Conversation) (m : ConversationMember) (p : Permission)
    → member_grants now c m p ≡ (
        (role_grants m.role p
          && not (
              is_silenced now m
              && one_of (send_message ∷ edit_own_message ∷ pin_message ∷ add_member ∷ []) p))
        && passes (role_rank m.role) c policies p)
unfolding member_grants
member_grants_lem now c m p = elim (Bool-cases (is_silenced now m)) [
  | inl held ↦ rw held (narrow-passes (role_rank m.role) c policies _ p ∙ ground arith)
  | inr free ↦ rw free (narrow-passes (role_rank m.role) c policies _ p ∙ ground arith)
]
