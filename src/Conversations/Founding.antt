-- ===== src/Conversations/Founding.antt =====
-- Who is in a new group or channel, `create_group` of services/conversations.py.
use runnerup_chat.Base.{
  ℕ, suc, ◌≤◌, ◌≡◌, refl, sym, ap, ◌∙◌, inl, inr, false, ◌&&◌, ◌||◌, Option, none, some, List, [],
  ◌∷◌, ◌++◌, arith, ◌==◌, length, take, length-take-le, ltb, Bool-cases, Option-cases, select_one,
  All, All-map, if◌then◌else◌,
}
use runnerup_chat.Errors.{Result, ok, err, AppError}
use runnerup_chat.Texts.{is_space, strip_of}
use runnerup_chat.Models.Accounts.{Uuid, Text, User}
use runnerup_chat.Models.Chat.{
  Conversation, ConversationKind, Visibility, ConversationMember, MemberRole,
}
use runnerup_chat.World.{World, LimitName, Identity, commit, record_audit}
use runnerup_chat.Authz.{assert_can_direct_message, blocking_state, either, find_member, is_public}
use runnerup_chat.Ratelimit.Enforce.{passed, limited, enforce-Enforced}
use runnerup_chat.Conversations.{new_member}
use runnerup_chat.Conversations.Create.{new_conversation}
use runnerup_chat.Conversations.Groups.{
  seed_member, seed_members, create_group, is_empty, is_missing, slug_refused, is_channel,
}

-- A row that the loop adds: of somebody else, in the role of a joiner, with no block between the creator
-- and that user.
pub record Seeded (u : User) (cid : Uuid) (r : MemberRole) (w : World) (m : ConversationMember)
    : Type 0 where
  pub here : m.conversation_id ≡ cid
  pub joined : m.role ≡ r
  pub other : (m.user_id == u.id) ≡ false
  pub unblocked : either (blocking_state w.db.blocks u.id m.user_id) ≡ false

abbrev with_members : World → List ConversationMember → World
with_members w rows = record w { db = record w.db { members = w.db.members ++ rows } }

data Seeding (u : User) (cid : Uuid) (r : MemberRole) (n : ℕ) (w : World)
    (x : Result (Unit {0}) × World) : Type 0 where
  failed : (e : AppError) → x.0 ≡ err e → Seeding u cid r n w x
  seeded :
      (rows : List ConversationMember)
      → All (Seeded u cid r w) rows
      → length rows ≤ n
      → x ≡ (ok tt, with_members w rows)
      → Seeding u cid r n w x

append_assoc :
    (xs : List ConversationMember) (y : ConversationMember) (ys : List ConversationMember)
    → (xs ++ y ∷ []) ++ ys ≡ xs ++ y ∷ ys
append_assoc [] y ys = refl
append_assoc (x ∷ xs) y ys = ap (λ l. x ∷ l) (append_assoc xs y ys)

append_nil : (xs : List ConversationMember) → xs ++ [] ≡ xs
append_nil [] = refl
append_nil (x ∷ xs) = ap (λ l. x ∷ l) (append_nil xs)

module _ (u : User) (cid : Uuid) (r : MemberRole) where
  looser :
      (n : ℕ) (w : World) (x : Result (Unit {0}) × World)
      → Seeding u cid r n w x
      → Seeding u cid r (suc n) w x
  looser n w x (failed e h) = failed e h
  looser n w x (seeded rows all few h) = seeded rows all (omega arith) h

  -- The row of one member, and then those of the others.
  one_more :
      (n : ℕ) (w : World) (m : Uuid) (x : Result (Unit {0}) × World)
      → (m == u.id) ≡ false
      → either (blocking_state w.db.blocks u.id m) ≡ false
      → Seeding u cid r n (with_members w (new_member cid m r (some u.id) ∷ [])) x
      → Seeding u cid r (suc n) w x
  one_more n w m x other free (failed e h) = failed e h
  one_more n w m x other free (seeded rows all few h) =
      seeded (new_member cid m r (some u.id) ∷ rows)
        (
          record { here = refl; joined = refl; other = other; unblocked = free },
          All-map _ _ rows
              (λ y s. record {
                here = s.here;
                joined = s.joined;
                other = s.other;
                unblocked = s.unblocked;
              })
              all,
        )
        (omega arith)
        (h
          ∙ ap (λ l. (ok tt, record w { db = record w.db { members = l } }))
              (append_assoc w.db.members (new_member cid m r (some u.id)) rows))

  seed_members-Seeding :
      (ms : List Uuid) (w : World) → Seeding u cid r (length ms) w (seed_members u cid r ms w)
  unfolding seed_members assert_can_direct_message seed_member
  seed_members-Seeding [] w = seeded [] tt (omega arith) (rw (append_nil w.db.members) refl)
  seed_members-Seeding (m ∷ ms) w = elim (Bool-cases (m == u.id)) [
    | inl self ↦ rw self (looser (length ms) w _ (seed_members-Seeding ms w))
    | inr other ↦ elim (Bool-cases (either (blocking_state w.db.blocks u.id m))) [
      | inl cut ↦ rw (other, cut) (looser (length ms) w _ (seed_members-Seeding ms w))
      | inr free ↦ elim (Option-cases (select_one (λ (v : User). v.id == m) w.db.users)) [
        | inl nobody ↦ rw (other, free, nobody) (failed _ refl)
        | inr (v, known) ↦ elim (Option-cases (find_member w.db cid m)) [
          | inr (old, before) ↦ rw (other, free, known, before) (failed _ refl)
          | inl new ↦
              rw (other, free, known, new)
                (one_more (length ms) w m _ other free
                  (seed_members-Seeding ms (with_members w (new_member cid m r (some u.id) ∷ []))))
        ]
      ]
    ]
  ]

-- A new conversation has one owner. When its creation has returned it, what is committed has, besides the rows
-- of members that there were, the creator's as its owner and at most 200 more of this conversation: each is of
-- somebody else, in the role of a joiner, member or subscriber, and there is no block, either way, between
-- that user and the creator.
pub group_has_one_owner :
    (u : User) (title : Text) (kind : ConversationKind) (visibility : Visibility)
    (slug : Option Text) (ids : List Uuid) (cid : Uuid) (w v : World) (c : Conversation)
    → create_group u title kind visibility slug ids cid w ≡ (ok c, v)
    → (rows : List ConversationMember) × (v.saved.members
        ≡ w.db.members ++ new_member cid u.id MemberRole.owner none ∷ rows)
      × All
          (Seeded u cid (if is_channel kind then MemberRole.subscriber else MemberRole.member) w)
          rows
      × (length rows ≤ 200)
unfolding create_group commit record_audit
group_has_one_owner u title kind visibility slug ids cid w v c done =
    elim (enforce-Enforced LimitName.conversation_create_user (Identity.known u.id) w) [
      | limited bs n pos e ↦ absurd (cc (rw e at done))
      | passed bs e ↦
          elim (Bool-cases (is_empty (strip_of is_space title) || ltb 128 (length title))) [
            | inl bad ↦ absurd (cc (rw (e, bad) at done))
            | inr fine ↦ elim (Bool-cases (is_public visibility && is_missing slug)) [
              | inl bare ↦ absurd (cc (rw (e, fine, bare) at done))
              | inr named ↦ elim (Bool-cases (slug_refused slug w.db.conversations)) [
                | inl taken ↦ absurd (cc (rw (e, fine, named, taken) at done))
                | inr open_yet ↦
                    let r = if is_channel kind then MemberRole.subscriber else MemberRole.member in
                    let made =
                      new_conversation cid kind visibility slug (some (strip_of is_space title))
                        u.id (if is_channel kind then MemberRole.admin else MemberRole.member) 512
                        w.now in
                    let owner = new_member cid u.id MemberRole.owner none in
                    let opened : World = record w {
                      buckets = bs;
                      db = record w.db {
                        conversations = w.db.conversations ++ made ∷ [];
                        members = w.db.members ++ owner ∷ [];
                      };
                    } in
                    elim (seed_members-Seeding u cid r (take 200 ids) opened) [
                      | failed x h ↦ absurd (cc (rw (e, fine, named, open_yet, h) at done))
                      | seeded rows all few h ↦
                          let finished = rw (e, fine, named, open_yet, h) at done in
                          (
                            rows,
                            sym (ap (λ x. x.1.saved.members) finished)
                                ∙ append_assoc w.db.members owner rows,
                            All-map _ _ rows
                                (λ y s. record {
                                  here = s.here;
                                  joined = s.joined;
                                  other = s.other;
                                  unblocked = s.unblocked;
                                })
                                all,
                            omega (arith, few, length-take-le 200 ids),
                          )
                    ]
              ]
            ]
          ]
    ]
