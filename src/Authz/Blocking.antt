-- ===== src/Authz/Blocking.antt =====
-- `blocking_state` of services/authz.py against the table of blocks.
use runnerup_chat.Base.{
  ◌≡◌, Bool, true, false, ◌&&◌, ◌||◌, List, [], ◌∷◌, arith, inl, inr, Bool-cases, ◌==◌, select_all,
}
use runnerup_chat.Models.Accounts.{Uuid}
use runnerup_chat.Models.Safety.{BlockedUser}
use runnerup_chat.Authz.{scan_blocks, blocking_state, either}

-- Some row says that `a` blocked `b`.
unfoldable pub has_blocked : List BlockedUser → Uuid → Uuid → Bool
has_blocked [] a b = false
has_blocked (r ∷ rs) a b = (r.blocker_id == a && r.blocked_id == b) || has_blocked rs a b

scan-select :
    (blocks : List BlockedUser) (a b : Uuid) (x y : Bool)
    → scan_blocks a b
        (x, y)
        (select_all
          (λ r.
            (r.blocker_id == a && r.blocked_id == b) || (r.blocker_id == b && r.blocked_id == a))
          blocks)
      ≡ (x || has_blocked blocks a b, y || has_blocked blocks b a)
unfolding scan_blocks select_all has_blocked
scan-select [] a b x y = ground arith
scan-select (r ∷ rs) a b x y = elim (Bool-cases (r.blocker_id == a && r.blocked_id == b)) [
  | inl there ↦ elim (Bool-cases (r.blocker_id == b && r.blocked_id == a)) [
    | inl back ↦ rw (there, back) (ground (arith, scan-select rs a b true true))
    | inr quiet ↦ rw (there, quiet) (ground (arith, scan-select rs a b true y))
  ]
  | inr quiet ↦ elim (Bool-cases (r.blocker_id == b && r.blocked_id == a)) [
    | inl back ↦ rw (quiet, back) (ground (arith, scan-select rs a b x true))
    | inr none_here ↦ rw (quiet, none_here) (scan-select rs a b x y)
  ]
]

-- `blocking_state` answers exactly what the table of blocks says of the two directions.
pub blocking_state_lem :
    (blocks : List BlockedUser) (a b : Uuid)
    → blocking_state blocks a b ≡ (has_blocked blocks a b, has_blocked blocks b a)
unfolding blocking_state
blocking_state_lem blocks a b = scan-select blocks a b false false

pub either_comm :
    (blocks : List BlockedUser) (a b : Uuid)
    → either (blocking_state blocks a b) ≡ either (blocking_state blocks b a)
either_comm blocks a b =
    ground (arith, blocking_state_lem blocks a b, blocking_state_lem blocks b a)
