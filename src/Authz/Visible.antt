-- ===== src/Authz/Visible.antt =====
-- Who gets an answer from `resolve_access` of services/authz.py, and what the others are told.
use runnerup_chat.Base.{
  ◌≡◌, refl, ◌⊎◌, inl, inr, Bool, true, false, not, Option, none, some, arith, Bool-cases,
  Option-cases, is_none, if◌then◌else◌,
}
use runnerup_chat.Errors.{Result, ok, err, not_visible, account_unavailable}
use runnerup_chat.Models.Accounts.{Uuid, Time, User, is_usable}
use runnerup_chat.Models.Chat.{Conversation, ConversationMember}
use runnerup_chat.World.{Db, World}
use runnerup_chat.Authz.{
  Access, PermissionSet, is_banned, is_public, find_conversation, find_member, base_grants,
  grants_in, resolve_access, visitor_grants,
}

-- What an access that was resolved says of the state that it was read from.
pub record Resolved (u : User) (cid : Uuid) (w : World) (a : Access) : Type 0 where
  pub same_user : a.user ≡ u
  pub usable : is_usable u ≡ true
  pub found : find_conversation w.db cid ≡ some a.conversation
  pub member : a.membership ≡ find_member w.db a.conversation.id u.id
  pub granted : grants_in w.db w.now u a.conversation ≡ ok a.permissions

-- A current member who is not banned may see a conversation; everybody else only a public one.
abbrev pub may_see : Conversation → Option ConversationMember → Bool
may_see c none = is_public c.visibility
may_see c (some m) = if is_none m.left_at then not (is_banned m.state) else is_public c.visibility

-- There is a conversation of that id, not deleted, that the user may see.
pub record CanSee (w : World) (u : User) (cid : Uuid) : Type 0 where
  pub conversation : Conversation
  pub found : find_conversation w.db cid ≡ some conversation
  pub seen : may_see conversation (find_member w.db conversation.id u.id) ≡ true

grants_in_cases :
    (db : Db) (now : Time) (u : User) (c : Conversation)
    → ((may_see c (find_member db c.id u.id) ≡ false) × (grants_in db now u c ≡ err not_visible))
      ⊎ ((may_see c (find_member db c.id u.id) ≡ true)
          × ((g : PermissionSet) × (grants_in db now u c ≡ ok g)))
unfolding grants_in base_grants visitor_grants
grants_in_cases db now u c = elim (Option-cases (find_member db c.id u.id)) [
  | inl stranger ↦ elim (Bool-cases (is_public c.visibility)) [
    | inl open_to_all ↦ rw (stranger, open_to_all, grants_in) (inr (refl, (_, refl)))
    | inr closed ↦ rw (stranger, closed, grants_in) (inl (refl, refl))
  ]
  | inr (m, e) ↦ elim (Bool-cases (is_none m.left_at)) [
    | inl current ↦ elim (Bool-cases (is_banned m.state)) [
      | inl banned ↦ rw (e, current, banned, grants_in) (inl (refl, refl))
      | inr welcome ↦ rw (e, current, welcome, grants_in) (inr (refl, (_, refl)))
    ]
    | inr gone ↦ elim (Bool-cases (is_public c.visibility)) [
      | inl open_to_all ↦ rw (e, gone, open_to_all, grants_in) (inr (refl, (_, refl)))
      | inr closed ↦ rw (e, gone, closed, grants_in) (inl (refl, refl))
    ]
  ]
]

-- The three ways in which `resolve_access` ends.
pub data Outcome (u : User) (cid : Uuid) (w : World) (r : Result Access × World) : Type 0 where
  unusable : is_usable u ≡ false → r ≡ (err account_unavailable, w) → Outcome u cid w r
  hidden : is_usable u ≡ true → ¬ CanSee w u cid → r ≡ (err not_visible, w) → Outcome u cid w r
  shown : (a : Access) → CanSee w u cid → Resolved u cid w a → r ≡ (ok a, w) → Outcome u cid w r

CanSee-unique :
    (w : World) (u : User) (cid : Uuid) (c : Conversation)
    → find_conversation w.db cid ≡ some c
    → CanSee w u cid
    → may_see c (find_member w.db c.id u.id) ≡ true
CanSee-unique w u cid c e s =
    let same : s.conversation ≡ c = ground (arith, s.found) in rw same at s.seen

-- `resolve_access` has three outcomes, none of which changes the state. An account that is not usable
-- is told so. A usable one gets its access exactly if the conversation exists, is not deleted and may
-- be seen: by a current member who is not banned, or by anybody else if it is public. In every
-- other case the answer is the one error `not_visible`, whether the conversation is missing,
-- deleted, private or closed to a banned member.
pub resolve_access-Outcome :
    (u : User) (cid : Uuid) (w : World) → Outcome u cid w (resolve_access u cid w)
unfolding resolve_access
resolve_access-Outcome u cid w = elim (Bool-cases (is_usable u)) [
  | inr bad ↦ unusable bad (ground arith)
  | inl good ↦ elim (Option-cases (find_conversation w.db cid)) [
    | inl missing ↦ hidden good (λ s. cc (s.found)) (ground arith)
    | inr (c, e) ↦ elim (grants_in_cases w.db w.now u c) [
      | inl (closed, refused) ↦ hidden good (λ s. cc (CanSee-unique w u cid c e s)) (ground arith)
      | inr (seen, (g, granted)) ↦
          shown
            (record {
              user = u;
              conversation = c;
              membership = find_member w.db c.id u.id;
              permissions = g;
            })
            (record { conversation = c; found = e; seen = seen })
            (record {
              same_user = refl;
              usable = good;
              found = e;
              member = refl;
              granted = granted;
            })
            (ground arith)
    ]
  ]
]

-- An access that was returned was resolved from the state at hand.
pub resolve_access-Resolved :
    (u : User) (cid : Uuid) (w w' : World) (a : Access)
    → resolve_access u cid w ≡ (ok a, w')
    → Resolved u cid w a × (w' ≡ w)
resolve_access-Resolved u cid w w' a e = elim (resolve_access-Outcome u cid w) [
  | unusable bad r ↦ absurd (cc (e, r))
  | hidden good s r ↦ absurd (cc (e, r))
  | shown b s v r ↦ let same : b ≡ a = cc (e, r) in (rw same at v, cc (e, r))
]
