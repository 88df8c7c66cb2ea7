-- ===== src/Conversations/Roles.antt =====
-- Who can be given which role, and how many members a conversation has (services/conversations.py).
use runnerup_chat.Base.{
  ◌+◌, ◌≤◌, ◌≡◌, ◌⊎◌, refl, inl, inr, true, false, ◌&&◌, Option, none, some, List, [], ◌∷◌, ◌++◌,
  arith, ◌==◌, leb, Bool-cases, Option-cases, is_some, select_one, update_rows, count_rows,
  count_rows-append, count_rows-update-add, ap, ==_refl, select_one-holds, select_one-update,
  select_one-append,
}
use runnerup_chat.Errors.{
  Result, ok, err, AppError, integrity_error, permission_denied, validation_failed, plain,
  cannot_grant_owner, member_limit_reached, user_is_banned,
}
use runnerup_chat.Models.Accounts.{Uuid, User}
use runnerup_chat.Models.Chat.{ConversationMember, MemberRole, MemberState}
use runnerup_chat.World.{World, commit, record_audit}
use runnerup_chat.Authz.{Access, Permission, is_member_row, find_member}
use runnerup_chat.Conversations.{
  new_member, rejoin, is_current_member, is_owner, is_other_owner, join, was_banned, add_member,
}

-- How a join ends: the constraints stop it, or one row came back, or one is new.
pub data Joined (cid uid : Uuid) (w : World) (x : Result (Unit {0}) × World) : Type 0 where
  stopped : x ≡ (err integrity_error, w) → Joined cid uid w x
  joined :
      (ms : List ConversationMember)
      → count_rows (is_current_member cid) ms ≤ count_rows (is_current_member cid) w.db.members + 1
      → x ≡ (ok tt, record w { db = record w.db { members = ms } })
      → Joined cid uid w x

append_one :
    (cid uid : Uuid) (r : MemberRole) (inviter : Option Uuid) (ms : List ConversationMember)
    → count_rows (is_current_member cid) (ms ++ new_member cid uid r inviter ∷ [])
      ≤ count_rows (is_current_member cid) ms + 1
unfolding count_rows
append_one cid uid r inviter ms =
    ground (arith, count_rows-append (is_current_member cid) ms (new_member cid uid r inviter ∷ []))

pub join-Joined :
    (cid uid : Uuid) (r : MemberRole) (inviter : Option Uuid) (existing : Option ConversationMember)
    (w : World)
    → count_rows (is_member_row cid uid) w.db.members ≤ 1
    → Joined cid uid w (join cid uid r inviter existing w)
unfolding join
join-Joined cid uid r inviter (some m) w single =
    elim (Bool-cases
      (is_owner m.role && is_some (select_one (is_other_owner cid uid) w.db.members))) [
        | inl second ↦ rw (second, join) (stopped refl)
        | inr free ↦
            rw (free, join)
              (joined (update_rows (is_member_row cid uid) rejoin w.db.members)
                (omega (
                  arith,
                  single,
                  count_rows-update-add (is_current_member cid) (is_member_row cid uid) rejoin
                      w.db.members,
                ))
                refl)
      ]
join-Joined cid uid r inviter none w single =
    elim (Option-cases (select_one (λ (u : User). u.id == uid) w.db.users)) [
      | inl nobody ↦ rw (nobody, join) (stopped refl)
      | inr (u, known) ↦
          rw (known, join)
            (joined (w.db.members ++ new_member cid uid r inviter ∷ [])
              (append_one cid uid r inviter w.db.members) refl)
    ]

-- The role that a member has after a join: whoever comes back has the role from before.
abbrev pub given_role : Option ConversationMember → MemberRole → MemberRole
given_role none r = r
given_role (some m) r = m.role

-- After a join the user is there, active.
pub join-member :
    (cid uid : Uuid) (r : MemberRole) (inviter : Option Uuid) (existing : Option ConversationMember)
    (w : World)
    → find_member w.db cid uid ≡ existing
    → (join cid uid r inviter existing w).0 ≡ ok tt
    → (m : ConversationMember) × (find_member (join cid uid r inviter existing w).1.db cid uid
        ≡ some m)
      × (m.left_at ≡ none)
      × (m.state ≡ MemberState.active)
      × (m.role ≡ given_role existing r)
unfolding join find_member
join-member cid uid r inviter (some m) w found done =
    elim (Bool-cases
      (is_owner m.role && is_some (select_one (is_other_owner cid uid) w.db.members))) [
        | inl second ↦ absurd (cc (rw (second, join) at done))
        | inr free ↦
            let mine : is_member_row cid uid m ≡ true =
              select_one-holds (is_member_row cid uid) w.db.members found in
            rw (free, join)
              (
                rejoin m,
                rw
                    (
                      select_one-update (is_member_row cid uid) (is_member_row cid uid) rejoin
                          w.db.members (λ x. refl),
                      found,
                    )
                    (rw mine refl),
                refl,
                refl,
                refl,
              )
      ]
join-member cid uid r inviter none w found done =
    elim (Option-cases (select_one (λ (u : User). u.id == uid) w.db.users)) [
      | inl nobody ↦ absurd (cc (rw (nobody, join) at done))
      | inr (u, known) ↦
          let mine : is_member_row cid uid (new_member cid uid r inviter) ≡ true =
            ground (arith, ==_refl cid, ==_refl uid) in
          rw (known, join)
            (
              new_member cid uid r inviter,
              rw
                  (
                    select_one-append (is_member_row cid uid) w.db.members
                        (new_member cid uid r inviter ∷ []),
                    found,
                  )
                  (rw mine refl),
              refl,
              refl,
              refl,
            )
    ]

-- `add_member` takes no conversation past its limit (other ways in are not looked at here). Where a user has
-- one row at most in the conversation, adding a member fails and commits nothing; or the caller may add members,
-- the role that was asked for is not owner, the member is not banned, in the committed tables the user has an
-- active row in the conversation, with the role that was asked for, or with the role from before where the user
-- had a row already, and the current members in the committed table are at most as many as the limit allows.
pub add_member_bounded :
    (access : Access) (uid : Uuid) (r : MemberRole) (w : World)
    → count_rows (is_member_row access.conversation.id uid) w.db.members ≤ 1
    → ((e : AppError) × ((add_member access uid r w).0 ≡ err e)
        × ((add_member access uid r w).1.saved ≡ w.saved))
      ⊎ ((m : ConversationMember) × (access.permissions Permission.add_member ≡ true)
          × (is_owner r ≡ false)
          × (was_banned (find_member w.db access.conversation.id uid) ≡ false)
          × ((add_member access uid r w).0 ≡ ok tt)
          × (find_member (add_member access uid r w).1.saved access.conversation.id uid ≡ some m)
          × (m.left_at ≡ none)
          × (m.state ≡ MemberState.active)
          × (m.role ≡ given_role (find_member w.db access.conversation.id uid) r)
          × (count_rows
                (is_current_member access.conversation.id)
                (add_member access uid r w).1.saved.members
              ≤ access.conversation.member_limit))
unfolding add_member commit record_audit find_member
add_member_bounded access uid r w single =
    elim (Bool-cases (access.permissions Permission.add_member)) [
      | inr may_not ↦
          inl
            (permission_denied plain, rw (may_not, add_member) refl, rw (may_not, add_member) refl)
      | inl may ↦ elim (Bool-cases (is_owner r)) [
        | inl top ↦ inl (
          permission_denied cannot_grant_owner,
          rw (may, top, add_member) refl,
          rw (may, top, add_member) refl,
        )
        | inr fine ↦
            elim (Bool-cases (
              leb access.conversation.member_limit
                (count_rows (is_current_member access.conversation.id) w.db.members))) [
                  | inl full ↦ inl (
                    validation_failed member_limit_reached,
                    rw (may, fine, full, add_member) refl,
                    rw (may, fine, full, add_member) refl,
                  )
                  | inr room ↦
                      elim (Bool-cases (was_banned (find_member w.db access.conversation.id uid))) [
                        | inl banned ↦ inl (
                          permission_denied user_is_banned,
                          rw (may, fine, room, banned, add_member) refl,
                          rw (may, fine, room, banned, add_member) refl,
                        )
                        | inr welcome ↦
                            elim (join-Joined access.conversation.id uid r (some access.user.id)
                              (find_member w.db access.conversation.id uid) w single) [
                                | stopped e ↦ inl (
                                  integrity_error,
                                  rw (may, fine, room, welcome, e, add_member) refl,
                                  rw (may, fine, room, welcome, e, add_member) refl,
                                )
                                | joined ms small e ↦
                                    let (m, there, present, active, role) =
                                      join-member access.conversation.id uid r (some access.user.id)
                                        (find_member w.db access.conversation.id uid) w refl
                                        (ap (λ x. x.0) e) in
                                    inr (
                                      m,
                                      may,
                                      fine,
                                      welcome,
                                      rw (may, fine, room, welcome, e, add_member) refl,
                                      rw (may, fine, room, welcome, e, add_member) (rw e at there),
                                      present,
                                      active,
                                      role,
                                      rw (may, fine, room, welcome, e, add_member)
                                          (ground (arith, small)),
                                    )
                              ]
                      ]
                ]
      ]
    ]
