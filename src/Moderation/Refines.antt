-- ===== src/Moderation/Refines.antt =====
-- The blocks of backend/app/api/v1/moderation.py as what they stand for: a relation between users.
use runnerup_chat.Base.{
  ◌≡◌, refl, ◌⊎◌, inl, inr, Bool, true, false, ◌&&◌, none, some, List, [], ◌∷◌, ◌++◌, arith, ◌==◌,
  Bool-cases, Option-cases, select_one, delete_rows, if◌then◌else◌,
}
use runnerup_chat.Errors.{ok, err, AppError, validation_failed, cannot_block_self, integrity_error}
use runnerup_chat.Security.{Platform}
use runnerup_chat.Models.Accounts.{Uuid, Text, User}
use runnerup_chat.Models.Safety.{BlockedUser}
use runnerup_chat.World.{World, Db, commit}
use runnerup_chat.Authz.Blocking.{has_blocked}
use runnerup_chat.Deps.{Principal}
use runnerup_chat.Moderation.{is_block, add_block, block_user, unblock_user}
use runnerup_chat.Moderation.Blocks.{has_blocked-select_one}

-- Who has blocked whom.
abbrev pub Relation : Type 0
Relation = Uuid → Uuid → Bool

-- The relation with one pair put in, and with one taken out.
abbrev pub with_pair : Uuid → Uuid → Relation → Relation
with_pair a b r i j = if a == i && b == j then true else r i j

abbrev pub without_pair : Uuid → Uuid → Relation → Relation
without_pair a b r i j = if a == i && b == j then false else r i j

-- The relation that the tables stand for.
abbrev pub relation : Db → Relation
relation db i j = has_blocked db.blocks i j

-- A call has changed the relation so, and what it has changed is committed.
pub record Implements (f : Relation → Relation) (w v : World) : Type 0 where
  pub related : (i j : Uuid) → relation v.db i j ≡ f (relation w.db) i j
  pub kept : w.saved ≡ w.db → v.saved ≡ v.db

appended :
    (a b i j : Uuid) (rs : List BlockedUser)
    → has_blocked (rs ++ record { blocker_id = a; blocked_id = b } ∷ []) i j
      ≡ with_pair a b (has_blocked rs) i j
unfolding has_blocked
appended a b i j [] = ground arith
appended a b i j (r ∷ rs) = ground (arith, appended a b i j rs)

deleted :
    (a b i j : Uuid) (rs : List BlockedUser)
    → has_blocked (delete_rows (is_block a b) rs) i j ≡ without_pair a b (has_blocked rs) i j
unfolding has_blocked delete_rows
deleted a b i j [] = ground arith
deleted a b i j (r ∷ rs) = ground (arith, deleted a b i j rs)

absent :
    (a b : Uuid) (rs : List BlockedUser)
    → select_one (is_block a b) rs ≡ none
    → has_blocked rs a b ≡ false
unfolding has_blocked select_one
absent a b [] h = refl
absent a b (r ∷ rs) h = elim (Bool-cases (is_block a b r)) [
  | inl hit ↦ absurd (cc (rw hit at h))
  | inr miss ↦ ground (arith, absent a b rs (rw miss at h))
]

put_twice : (a b i j : Uuid) (r : Relation) → r a b ≡ true → r i j ≡ with_pair a b r i j
put_twice a b i j r h = elim (Bool-cases (a == i && b == j)) [
  | inl hit ↦
      let left : a ≡ i = ground arith in
      let right : b ≡ j = ground arith in rw hit (rw (left, right) at h)
  | inr miss ↦ rw miss refl
]

taken_twice : (a b i j : Uuid) (r : Relation) → r a b ≡ false → r i j ≡ without_pair a b r i j
taken_twice a b i j r h = elim (Bool-cases (a == i && b == j)) [
  | inl hit ↦
      let left : a ≡ i = ground arith in
      let right : b ≡ j = ground arith in rw hit (rw (left, right) at h)
  | inr miss ↦ rw miss refl
]

module _ (os : Platform) (p : Principal) (user_id : Text) (t : Uuid) (w : World) where
  block_user-Implements :
      os.parse_uuid user_id ≡ some t
      → (block_user os p user_id w).0 ≡ ok tt
      → Implements (with_pair p.user.id t) w (block_user os p user_id w).1
  unfolding block_user add_block commit
  block_user-Implements parsed done = elim (Bool-cases (t == p.user.id)) [
    | inl self ↦ absurd (cc (rw (parsed, self) at done))
    | inr apart ↦ elim (Option-cases (select_one (is_block p.user.id t) w.db.blocks)) [
      | inr (r, there) ↦
          rw (parsed, apart, there)
            (record {
              related = λ i j.
                  put_twice p.user.id t i j (relation w.db)
                    (has_blocked-select_one p.user.id t w.db.blocks r there);
              kept = λ same. same;
            })
      | inl fresh ↦ elim (Option-cases (select_one (λ (u : User). u.id == t) w.db.users)) [
        | inl nobody ↦ absurd (cc (rw (parsed, apart, fresh, nobody) at done))
        | inr (u, known) ↦
            rw (parsed, apart, fresh, known)
              (record {
                related = λ i j. appended p.user.id t i j w.db.blocks;
                kept = λ same. refl;
              })
      ]
    ]
  ]

  unblock_user-Implements :
      os.parse_uuid user_id ≡ some t
      → ((unblock_user os p user_id w).0 ≡ ok tt)
        × Implements (without_pair p.user.id t) w (unblock_user os p user_id w).1
  unfolding unblock_user commit
  unblock_user-Implements parsed =
      elim (Option-cases (select_one (is_block p.user.id t) w.db.blocks)) [
        | inl missing ↦
            rw (parsed, missing)
              (
                refl,
                record {
                  related = λ i j.
                      taken_twice p.user.id t i j (relation w.db)
                        (absent p.user.id t w.db.blocks missing);
                  kept = λ same. same;
                },
              )
        | inr (r, there) ↦
            rw (parsed, there)
              (
                refl,
                record {
                  related = λ i j. deleted p.user.id t i j w.db.blocks;
                  kept = λ same. refl;
                },
              )
      ]

  -- A request to block that is not answered changes nothing.
  block_user-cases :
      os.parse_uuid user_id ≡ some t
      → ((block_user os p user_id w).0 ≡ ok tt)
        ⊎ ((e : AppError) × ((block_user os p user_id w) ≡ (err e, w)))
  unfolding block_user add_block commit
  block_user-cases parsed = elim (Bool-cases (t == p.user.id)) [
    | inl self ↦ inr (validation_failed cannot_block_self, rw (parsed, self) refl)
    | inr apart ↦ elim (Option-cases (select_one (is_block p.user.id t) w.db.blocks)) [
      | inr (r, there) ↦ inl (rw (parsed, apart, there) refl)
      | inl fresh ↦ elim (Option-cases (select_one (λ (u : User). u.id == t) w.db.users)) [
        | inl nobody ↦ inr (integrity_error, rw (parsed, apart, fresh, nobody) refl)
        | inr (u, known) ↦ inl (rw (parsed, apart, fresh, known) refl)
      ]
    ]
  ]

  -- The table of blocks implements a relation between users, whatever the order of its rows. Of a user that is
  -- named by the text of an id: a request to block is answered, and puts the pair of the caller and that user
  -- in and changes no other pair, whether or not it was in, or it ends in an error and changes nothing; and a
  -- request to lift a block, made in whatever state, is answered, and takes just that pair out, whether or not
  -- it was in. Where nothing was left uncommitted before, nothing is after.
  pub blocks_implement_relation :
      os.parse_uuid user_id ≡ some t
      → ((((block_user os p user_id w).0 ≡ ok tt)
            × Implements (with_pair p.user.id t) w (block_user os p user_id w).1)
          ⊎ ((e : AppError) × (block_user os p user_id w ≡ (err e, w))))
        × ((unblock_user os p user_id w).0 ≡ ok tt)
        × Implements (without_pair p.user.id t) w (unblock_user os p user_id w).1
  blocks_implement_relation parsed =
      let (answered, lifted) = unblock_user-Implements parsed in
      (
        elim (block_user-cases parsed) [
          | inl done ↦ inl (done, block_user-Implements parsed done)
          | inr stopped ↦ inr stopped
        ],
        answered,
        lifted,
      )
