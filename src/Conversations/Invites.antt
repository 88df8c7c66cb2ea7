-- ===== src/Conversations/Invites.antt =====
-- How often an invite link can be used (services/conversations.py).
use runnerup_chat.Base.{
  ◌≤◌, ◌≡◌, ◌⊎◌, refl, inl, inr, Bool, true, false, none, some, List, [], ◌∷◌, arith, ◌==◌, leb,
  Bool-cases, Option-cases, select_one, update_rows, count_rows, All,
}
use runnerup_chat.Errors.{ok}
use runnerup_chat.Security.{Platform}
use runnerup_chat.Models.Accounts.{Uuid, Text, User}
use runnerup_chat.Models.Chat.{Conversation, InviteLink}
use runnerup_chat.World.{World, commit, record_audit}
use runnerup_chat.Authz.{is_live, is_member_row, find_member}
use runnerup_chat.Conversations.{
  is_dead, is_used_up, use_once, was_banned, joining_role, redeem_invite,
}
use runnerup_chat.Conversations.Roles.{joined, stopped, join-Joined}

-- The uses of a link are at most as many as it allows.
abbrev is_honored : InviteLink → Bool
is_honored i = elim i.max_uses [ none ↦ true | some n ↦ leb i.use_count n ]

abbrev pub IsHonored : InviteLink → Type 0
IsHonored i = is_honored i ≡ true

live_link : (i : InviteLink) → is_used_up i ≡ false → IsHonored (use_once i)
live_link i open_link = elim (Option-cases i.max_uses) [
  | inl endless ↦ rw endless refl
  | inr (n, e) ↦ let room : leb n i.use_count ≡ false = rw e at open_link in rw e (ground arith)
]

used_rows :
    (i : InviteLink) (rows : List InviteLink)
    → IsHonored (use_once i)
    → All IsHonored rows
    → All (λ r. (r.id == i.id) ≡ true → r ≡ i) rows
    → All IsHonored (update_rows (λ (r : InviteLink). r.id == i.id) use_once rows)
unfolding update_rows
used_rows i [] room within only = tt
used_rows i (r ∷ rows) room within only = elim (Bool-cases (r.id == i.id)) [
  | inl hit ↦
      let same : r ≡ i = only.0 hit in rw hit (rw same room, used_rows i rows room within.1 only.1)
  | inr miss ↦ rw miss (within.0, used_rows i rows room within.1 only.1)
]

module _ (os : Platform) where
  -- A link is never used more often than it allows. Where the uses of every link are within its limit, the
  -- row of the token is the only one of its id, and the user has one row at most in any
  -- conversation, they are within the limit in the committed table after a redemption too; and a
  -- redemption that fails commits nothing.
  pub invite_within_limit :
      (u : User) (token : Text) (w : World)
      → w.saved ≡ w.db
      → All IsHonored w.db.invites
      → ((i : InviteLink)
          → select_one (λ (i : InviteLink). i.token_hash == os.sha256 token) w.db.invites ≡ some i
          → All (λ r. (r.id == i.id) ≡ true → r ≡ i) w.db.invites)
      → ((cid : Uuid) → count_rows (is_member_row cid u.id) w.db.members ≤ 1)
      → All IsHonored (redeem_invite os u token w).1.saved.invites
        × (((redeem_invite os u token w).1.saved ≡ w.saved)
            ⊎ ((c : Conversation) × ((redeem_invite os u token w).0 ≡ ok c)))
  unfolding redeem_invite commit record_audit
  invite_within_limit u token w clean within only single =
      elim (Option-cases
        (select_one (λ (i : InviteLink). i.token_hash == os.sha256 token) w.db.invites)) [
          | inl unknown ↦ rw (unknown, redeem_invite) (rw clean within, inl refl)
          | inr (i, found) ↦ elim (Bool-cases (is_dead w.now i)) [
            | inl dead ↦ rw (found, dead, redeem_invite) (rw clean within, inl refl)
            | inr alive ↦ elim (Bool-cases (was_banned (find_member w.db i.conversation_id u.id))) [
              | inl banned ↦ rw (found, alive, banned, redeem_invite) (rw clean within, inl refl)
              | inr welcome ↦
                  elim (Option-cases (select_one (is_live i.conversation_id) w.db.conversations)) [
                    | inl gone ↦
                        rw (found, alive, welcome, gone, redeem_invite) (rw clean within, inl refl)
                    | inr (c, here) ↦
                        elim (join-Joined c.id u.id (joining_role c.kind) none
                          (find_member w.db i.conversation_id u.id) w (single c.id)) [
                            | stopped e ↦
                                rw (found, alive, welcome, here, e, redeem_invite)
                                  (rw clean within, inl refl)
                            | joined ms small e ↦
                                rw (found, alive, welcome, here, e, redeem_invite)
                                  (
                                    used_rows i w.db.invites (live_link i (ground arith)) within
                                        (only i found),
                                    inr (c, refl),
                                  )
                          ]
                  ]
            ]
          ]
        ]
