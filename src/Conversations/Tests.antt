-- ===== src/Conversations/Tests.antt =====
-- Concrete runs of services/conversations.py.
use runnerup_chat.Base.{
  ℕ, List, ◌++◌, length, ◌≤◌, ◌≡◌, ◌⊎◌, refl, true, false, none, some, [], ◌∷◌, arith, count_rows,
  select_one, select_all, All,
}
use runnerup_chat.Errors.{ok, err, AppError}
use runnerup_chat.Models.Chat.{
  MemberState, ConversationKind, Visibility, ConversationMember, Conversation, MemberRole,
  InviteLink,
}
use runnerup_chat.World.{World, commit, record_audit}
use runnerup_chat.Texts.{is_space, strip_of, drop_while, reverse_onto}
use runnerup_chat.Ratelimit.{
  enforce, check, check_rounds, eval_window, sliding_window, limits, find_slot, put_slot, prune,
  live, zadd, oldest, name_code, identity_eq, is_bucket,
}
use runnerup_chat.Authz.{
  assert_can_direct_message, blocking_state, scan_blocks, Permission, is_member_row, find_member,
}
use runnerup_chat.Conversations.{
  new_member, is_current_member, is_owner, was_banned, add_member, redeem_invite,
}
use runnerup_chat.Conversations.Roles.{add_member_bounded, given_role}
use runnerup_chat.Conversations.Invites.{IsHonored, invite_within_limit}
use runnerup_chat.Conversations.Create.{new_conversation, insert_direct, direct_conversation}
use runnerup_chat.Conversations.Groups.{create_group, seed_members, seed_member}
use runnerup_chat.Conversations.Founding.{Seeded, group_has_one_owner}
use runnerup_chat.Conversations.Direct.{direct_converges}
use runnerup_chat.Samples.{sample_platform, start, tables, access, alice, bob, hello, refresh, noon}

add_member_bounded_example :
    ((e : AppError) × ((add_member access 2 MemberRole.member start).0 ≡ err e)
      × ((add_member access 2 MemberRole.member start).1.saved ≡ start.saved))
    ⊎ ((m : ConversationMember) × (access.permissions Permission.add_member ≡ true)
        × (is_owner MemberRole.member ≡ false)
        × (was_banned (find_member start.db 10 2) ≡ false)
        × ((add_member access 2 MemberRole.member start).0 ≡ ok tt)
        × (find_member (add_member access 2 MemberRole.member start).1.saved 10 2 ≡ some m)
        × (m.left_at ≡ none)
        × (m.state ≡ MemberState.active)
        × (m.role ≡ given_role (find_member start.db 10 2) MemberRole.member)
        × (count_rows
              (is_current_member 10)
              (add_member access 2 MemberRole.member start).1.saved.members
            ≤ 512))
unfolding count_rows
add_member_bounded_example = add_member_bounded access 2 MemberRole.member start (omega arith)

abbrev link : InviteLink
link = record {
  id = 80;
  conversation_id = 10;
  token_hash = sample_platform.sha256 refresh;
  created_by = some 1;
  max_uses = some 3;
  use_count = 2;
  requires_approval = false;
  expires_at = none;
  revoked_at = none;
}

abbrev linked : World
linked = record start {
  db = record tables { invites = link ∷ [] };
  saved = record tables { invites = link ∷ [] };
}

one_row : (cid : ℕ) → count_rows (is_member_row cid 2) linked.db.members ≤ 1
unfolding count_rows
one_row cid = ground arith

invite_within_limit_example :
    All IsHonored (redeem_invite sample_platform bob refresh linked).1.saved.invites
    × (((redeem_invite sample_platform bob refresh linked).1.saved ≡ linked.saved)
        ⊎ ((c : Conversation) × ((redeem_invite sample_platform bob refresh linked).0 ≡ ok c)))
unfolding select_one
invite_within_limit_example =
    invite_within_limit sample_platform bob refresh linked refl (refl, tt)
      (λ i e. ((λ h. ground arith), tt)) one_row

direct_converges_example :
    ((insert_direct 1 2 12 start).0 ≡ ok (some (direct_conversation 12 1 noon)))
    × (insert_direct 2 1 13 (insert_direct 1 2 12 start).1
        ≡ (ok (some (direct_conversation 12 1 noon)), (insert_direct 1 2 12 start).1))
unfolding select_one
direct_converges_example = direct_converges 1 2 12 13 start refl refl

-- A group that Alice makes, with herself and Bob on the list.
abbrev founded : Conversation
founded =
    new_conversation 15 ConversationKind.group Visibility.private none (some hello) 1
      MemberRole.member 512 noon

group_has_one_owner_example :
    (rows : List ConversationMember) × ((create_group alice hello ConversationKind.group
        Visibility.private none
        (1 ∷ 2 ∷ [])
        15
        start).1.saved.members
      ≡ start.db.members ++ new_member 15 1 MemberRole.owner none ∷ rows)
    × All (Seeded alice 15 MemberRole.member start) rows
    × (length rows ≤ 200)
unfolding create_group commit record_audit enforce check check_rounds eval_window sliding_window
    limits find_slot put_slot prune live zadd oldest name_code identity_eq is_bucket select_one
    select_all strip_of drop_while reverse_onto is_space seed_members seed_member
    assert_can_direct_message blocking_state scan_blocks find_member
group_has_one_owner_example =
    group_has_one_owner alice hello ConversationKind.group Visibility.private none (1 ∷ 2 ∷ []) 15
      start
      (create_group alice hello ConversationKind.group Visibility.private none (1 ∷ 2 ∷ []) 15
        start).1
      founded refl
