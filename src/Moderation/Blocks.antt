-- ===== src/Moderation/Blocks.antt =====
-- A block of backend/app/api/v1/moderation.py as backend/app/services/authz.py and
-- backend/app/services/conversations.py see it.
use runnerup_chat.Base.{
  ◌≡◌, refl, inl, inr, true, ◌||◌, some, List, [], ◌∷◌, ◌++◌, arith, ◌==◌, ==_refl, Bool-cases,
  Option-cases, select_one,
}
use runnerup_chat.Errors.{ok}
use runnerup_chat.Security.{Platform}
use runnerup_chat.Models.Accounts.{Uuid, Text, User}
use runnerup_chat.Models.Chat.{Conversation}
use runnerup_chat.Models.Safety.{BlockedUser}
use runnerup_chat.World.{World, commit}
use runnerup_chat.Authz.{find_conversation, direct_counterpart, is_direct}
use runnerup_chat.Authz.Blocking.{has_blocked}
use runnerup_chat.Authz.Sending.{CanSend, MaySend, send_allowed}
use runnerup_chat.Deps.{Principal}
use runnerup_chat.Moderation.{is_block, add_block, block_user}

pub has_blocked-select_one :
    (a b : Uuid) (rs : List BlockedUser) (r : BlockedUser)
    → select_one (is_block a b) rs ≡ some r
    → has_blocked rs a b ≡ true
unfolding has_blocked select_one
has_blocked-select_one a b [] r h = absurd (cc)
has_blocked-select_one a b (x ∷ xs) r h = elim (Bool-cases (is_block a b x)) [
  | inl here ↦ rw here refl
  | inr later ↦ rw later (has_blocked-select_one a b xs r (rw later at h))
]

has_blocked-append :
    (a b : Uuid) (rs : List BlockedUser)
    → has_blocked (rs ++ record { blocker_id = a; blocked_id = b } ∷ []) a b ≡ true
unfolding has_blocked
has_blocked-append a b [] = ground (arith, ==_refl a, ==_refl b)
has_blocked-append a b (r ∷ rs) = ground (arith, has_blocked-append a b rs)

add_block-has_blocked :
    (a b : Uuid) (w : World)
    → (add_block a b w).0 ≡ ok tt
    → has_blocked (add_block a b w).1.db.blocks a b ≡ true
unfolding add_block commit
add_block-has_blocked a b w h =
    elim (Option-cases (select_one (λ (u : User). u.id == b) w.db.users)) [
      | inl nobody ↦ absurd (cc (rw nobody at h))
      | inr (u, known) ↦ rw known (has_blocked-append a b w.db.blocks)
    ]

-- A block that was answered is in the table.
pub block_user-has_blocked :
    (os : Platform) (p : Principal) (user_id : Text) (t : Uuid) (w : World)
    → os.parse_uuid user_id ≡ some t
    → (block_user os p user_id w).0 ≡ ok tt
    → has_blocked (block_user os p user_id w).1.db.blocks p.user.id t ≡ true
unfolding block_user
block_user-has_blocked os p user_id t w parsed h = elim (Bool-cases (t == p.user.id)) [
  | inl self ↦ absurd (cc (rw (parsed, self) at h))
  | inr apart ↦ elim (Option-cases (select_one (is_block p.user.id t) w.db.blocks)) [
    | inr (r, there) ↦
        rw (parsed, apart, there) (has_blocked-select_one p.user.id t w.db.blocks r there)
    | inl fresh ↦
        rw (parsed, apart, fresh)
          (add_block-has_blocked p.user.id t w (rw (parsed, apart, fresh) at h))
  ]
]

-- The two sides of a block.
pub data Side (blocker blocked : Uuid) : Uuid → Uuid → Type 0 where
  from_blocker : Side blocker blocked blocker blocked
  from_blocked : Side blocker blocked blocked blocker

Side-either :
    (blocks : List BlockedUser) (a b i j : Uuid)
    → Side a b i j
    → has_blocked blocks a b ≡ true
    → has_blocked blocks i j || has_blocked blocks j i ≡ true
Side-either blocks a b i j from_blocker h = ground arith
Side-either blocks a b i j from_blocked h = ground arith

-- A block silences the conversations that the two have already. Once a request to block has been answered,
-- neither of the two users, `u` with `other` the other one, can send in a direct conversation of the two.
pub block_silences :
    (os : Platform) (p : Principal) (user_id : Text) (t : Uuid) (w : World) (u : User)
    (other cid : Uuid) (c : Conversation)
    → os.parse_uuid user_id ≡ some t
    → (block_user os p user_id w).0 ≡ ok tt
    → Side p.user.id t u.id other
    → find_conversation (block_user os p user_id w).1.db cid ≡ some c
    → is_direct c.kind ≡ true
    → direct_counterpart (block_user os p user_id w).1.db.direct_keys c.id u.id ≡ some other
    → ¬ CanSend u cid (block_user os p user_id w).1
block_silences os p user_id t w u other cid c parsed done side found direct pair s =
    let v = (block_user os p user_id w).1 in
    let cut =
      Side-either v.db.blocks p.user.id t u.id other side
        (block_user-has_blocked os p user_id t w parsed done) in
    let m : MaySend v u cid = (send_allowed u cid v).0 s in
    let same : m.conversation ≡ c = ground (arith, m.found, found) in
    let free = (m.not_blocked (rw same direct)).no_block other (rw same pair) in
    absurd (ground (arith, free, cut))
