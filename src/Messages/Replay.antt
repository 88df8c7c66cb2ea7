-- ===== src/Messages/Replay.antt =====
-- `sync_events` of services/messages.py: which events it answers with, and where its cursor stands.
use runnerup_chat.Base.{
  ℕ, zero, suc, ◌+◌, ◌≤◌, ◌<◌, ◌⊎◌, ◌≡◌, ◌∙◌, refl, inl, inr, Bool, true, ◌&&◌, List, [], ◌∷◌,
  arith, take, length, leb, ltb, ◌==◌, ==_refl, Bool-cases, All, All-map, All-take, count_rows,
  select_all, select_all-holds, select_one, is_some, sym, ap, min, if◌then◌else◌,
}
use runnerup_chat.Errors.{ok}
use runnerup_chat.Models.Accounts.{User}
use runnerup_chat.Models.Chat.{ConversationEvent}
use runnerup_chat.World.{World}
use runnerup_chat.Messages.{is_present}
use runnerup_chat.Messages.Read.{sort_by, is_replayed, last_id, sync_events}
use runnerup_chat.Messages.Sorting.{
  All-sort_by, count_rows-sort_by, rest_after, count_rows-take-rest, count_rows-select, Ascending,
  Ascending-sort_by,
}

abbrev pub has_id : ℕ → ConversationEvent → Bool
has_id k e = e.id == k

abbrev id_of : ConversationEvent → ℕ
id_of e = e.id

-- The rows of `sync_events` before the limit.
abbrev replayed : User → ℕ → World → List ConversationEvent
replayed u after w =
    sort_by (λ (a b : ConversationEvent). ltb a.id b.id)
      (select_all (is_replayed w.db w.now u.id after) w.db.events)

-- What is left stands behind the cursor.
rest_is_later :
    (n c : ℕ) (xs : List ConversationEvent)
    → Ascending id_of xs
    → All (λ (y : ConversationEvent). c ≤ y.id) xs
    → All (λ (y : ConversationEvent). last_id c (take n xs) ≤ y.id) (rest_after n xs)
unfolding last_id
rest_is_later zero c xs sorted h = h
rest_is_later (suc n) c [] sorted h = tt
rest_is_later (suc n) c (x ∷ xs) sorted h = rest_is_later n x.id xs sorted.1 sorted.0

none_below :
    (k c : ℕ) (xs : List ConversationEvent)
    → k < c
    → All (λ (y : ConversationEvent). c ≤ y.id) xs
    → count_rows (has_id k) xs ≡ 0
unfolding count_rows
none_below k c [] less h = refl
none_below k c (x ∷ xs) less h =
    let above : c ≤ x.id = h.0 in ground (arith, none_below k c xs less h.1)

-- The cursor is the id of an event that is returned, or stays where it was.
cursor_in :
    (c : ℕ) (xs : List ConversationEvent)
    → (last_id c xs ≡ c) × (xs ≡ []) ⊎ (1 ≤ count_rows (has_id (last_id c xs)) xs)
unfolding last_id count_rows
cursor_in c [] = inl (refl, refl)
cursor_in c (x ∷ xs) = elim (cursor_in x.id xs) [
  | inl (same, nothing) ↦ inr (rw (same, ==_refl x.id) (omega arith))
  | inr later ↦ inr (omega (arith, later))
]

up_to_cursor :
    (c : ℕ) (xs : List ConversationEvent)
    → Ascending id_of xs
    → All (λ (y : ConversationEvent). c ≤ y.id) xs
    → (c ≤ last_id c xs) × All (λ (y : ConversationEvent). y.id ≤ last_id c xs) xs
unfolding last_id
up_to_cursor c [] sorted h = (omega arith, tt)
up_to_cursor c (x ∷ xs) sorted h =
    let (rise, rest) = up_to_cursor x.id xs sorted.1 sorted.0 in
    let first : c ≤ x.id = h.0 in (omega arith, (rise, rest))

none_above :
    (k c : ℕ) (xs : List ConversationEvent)
    → c < k
    → All (λ (y : ConversationEvent). y.id ≤ c) xs
    → count_rows (has_id k) xs ≡ 0
unfolding count_rows
none_above k c [] more h = refl
none_above k c (x ∷ xs) more h =
    let below : x.id ≤ c = h.0 in ground (arith, none_above k c xs more h.1)

Ascending-take :
    (n : ℕ) (xs : List ConversationEvent) → Ascending id_of xs → Ascending id_of (take n xs)
Ascending-take zero xs sorted = tt
Ascending-take (suc n) [] sorted = tt
Ascending-take (suc n) (x ∷ xs) sorted =
    (All-take (λ (y : ConversationEvent). x.id ≤ y.id) n xs sorted.0, Ascending-take n xs sorted.1)

-- Of an id up to the cursor nothing is left behind the page, where ids are unique.
nothing_left :
    (n c k : ℕ) (xs : List ConversationEvent)
    → Ascending id_of xs
    → All (λ (y : ConversationEvent). c < y.id) xs
    → count_rows (has_id k) xs ≤ 1
    → k ≤ last_id c (take n xs)
    → count_rows (has_id k) (rest_after n xs) ≡ 0
nothing_left n c k xs sorted above once reach =
    let page = take n xs in
    let cursor = last_id c page in
    let behind : All (λ (y : ConversationEvent). cursor ≤ y.id) (rest_after n xs) =
      rest_is_later n c xs sorted (
        All-map (λ (y : ConversationEvent). c < y.id) (λ (y : ConversationEvent). c ≤ y.id) xs
          (λ y lt. omega arith) above) in
    elim (Bool-cases (ltb k cursor)) [
      | inl less ↦ none_below k cursor (rest_after n xs) (ground arith) behind
      | inr not_less ↦
          let at : k ≡ cursor = ground arith in
          elim (cursor_in c page) [
            | inl (same, nothing) ↦
                let none_here : count_rows (has_id k) xs ≡ 0 =
                  none_below k (c + 1) xs (omega arith) (
                    All-map (λ (y : ConversationEvent). c < y.id)
                      (λ (y : ConversationEvent). c + 1 ≤ y.id) xs (λ y lt. omega arith) above) in
                omega (arith, count_rows-take-rest (has_id k) n xs)
            | inr there ↦
                let there_k : 1 ≤ count_rows (has_id k) page = rw at there in
                omega (arith, count_rows-take-rest (has_id k) n xs)
          ]
    ]

-- Of each id, the page holds what the rows hold, up to the cursor, and nothing beyond it.
page_holds :
    (n c k : ℕ) (xs : List ConversationEvent)
    → Ascending id_of xs
    → All (λ (y : ConversationEvent). c < y.id) xs
    → count_rows (has_id k) xs ≤ 1
    → count_rows (has_id k) (take n xs)
      ≡ (if leb k (last_id c (take n xs)) then count_rows (has_id k) xs else 0)
page_holds n c k xs sorted above once =
    let page = take n xs in
    let from : All (λ (y : ConversationEvent). c ≤ y.id) page = All-take _ n xs (
      All-map (λ (y : ConversationEvent). c < y.id) (λ (y : ConversationEvent). c ≤ y.id) xs
        (λ y lt. omega arith) above) in
    elim (Bool-cases (leb k (last_id c page))) [
      | inl reach ↦ rw reach (
          omega (
            arith,
            count_rows-take-rest (has_id k) n xs,
            nothing_left n c k xs sorted above once (ground arith),
          ))
      | inr beyond ↦ rw beyond (
          none_above k (last_id c page) page (ground arith)
            (up_to_cursor c page (Ascending-take n xs sorted) from).1)
    ]

rows_hold :
    (u : User) (after k : ℕ) (w : World)
    → count_rows (has_id k) (replayed u after w)
      ≡ count_rows (λ e. is_replayed w.db w.now u.id after e && has_id k e) w.db.events
rows_hold u after k w =
    let p = is_replayed w.db w.now u.id after in
    count_rows-sort_by (has_id k) _ (select_all p w.db.events)
    ∙ count_rows-select (has_id k) p w.db.events

fewer :
    (p q : ConversationEvent → Bool) (xs : List ConversationEvent)
    → count_rows (λ e. p e && q e) xs ≤ count_rows q xs
unfolding count_rows
fewer p q [] = omega arith
fewer p q (x ∷ xs) = ground (arith, fewer p q xs)

replayed-parts :
    (u : User) (after : ℕ) (w : World) (e : ConversationEvent)
    → is_replayed w.db w.now u.id after e ≡ true
    → (after < e.id)
      × (is_some (select_one (is_present e.conversation_id u.id) w.db.members) ≡ true)
      × (e.created_at + 1000000 < w.now)
replayed-parts u after w e hit = (ground arith, ground arith, ground arith)

length-all : (xs : List ConversationEvent) → count_rows (λ e. true) xs ≡ length xs
unfolding count_rows
length-all [] = refl
length-all (x ∷ xs) = omega (arith, length-all xs)

length-take : (n : ℕ) (xs : List ConversationEvent) → length (take n xs) ≡ min n (length xs)
length-take zero xs = omega arith
length-take (suc n) [] = omega arith
length-take (suc n) (x ∷ xs) = omega (arith, length-take n xs)

and_true :
    (p : ConversationEvent → Bool) (xs : List ConversationEvent)
    → count_rows (λ e. p e && true) xs ≡ count_rows p xs
unfolding count_rows
and_true p [] = refl
and_true p (x ∷ xs) = ground (arith, and_true p xs)

-- How many rows there are before the limit.
length-replayed :
    (u : User) (after : ℕ) (w : World)
    → length (replayed u after w) ≡ count_rows (is_replayed w.db w.now u.id after) w.db.events
length-replayed u after w =
    let p = is_replayed w.db w.now u.id after in
    sym (length-all (replayed u after w))
    ∙ count_rows-sort_by (λ e. true) _ (select_all p w.db.events)
    ∙ count_rows-select (λ e. true) p w.db.events
    ∙ and_true p w.db.events

-- Say that an event is due where its id is after the given one, its conversation is one that the caller is a
-- member of now, and it is older than a second now. A replay answers with as many of the due events as were
-- asked for, or with all where they are fewer; each event in the answer is due; and the cursor does not go back.
-- Where the ids of the events are unique, as those of a primary key are: of each id up to the cursor, the answer
-- holds the event of this id that is due, if there is one, and of the ids beyond the cursor it holds none. An
-- event with an id up to the cursor that is not due yet, since it is younger than a second, is left out, and a
-- replay from the cursor does not come back to it.
pub sync_is_exact :
    (u : User) (after limit : ℕ) (w : World)
    → ((k : ℕ) → count_rows (has_id k) w.db.events ≤ 1)
    → (events : List ConversationEvent) × (cursor : ℕ) × (sync_events u after limit w
        ≡ (ok (events, cursor), w))
      × All
          (λ e.
            (after < e.id)
            × (is_some (select_one (is_present e.conversation_id u.id) w.db.members) ≡ true)
            × (e.created_at + 1000000 < w.now))
          events
      × (length events ≡ min limit (count_rows (is_replayed w.db w.now u.id after) w.db.events))
      × (after ≤ cursor)
      × ((k : ℕ)
          → count_rows (has_id k) events ≡ (
              if leb k cursor
              then count_rows (λ e. is_replayed w.db w.now u.id after e && has_id k e) w.db.events
              else 0))
unfolding sync_events
sync_is_exact u after limit w unique =
    let p = is_replayed w.db w.now u.id after in
    let rows = replayed u after w in
    let wanted : All (λ e. p e ≡ true) rows =
      All-sort_by (λ e. p e ≡ true) _ _ (select_all-holds p w.db.events) in
    let above : All (λ (y : ConversationEvent). after < y.id) rows =
      All-map (λ e. p e ≡ true) (λ (y : ConversationEvent). after < y.id) rows
        (λ y hit. ground arith) wanted in
    let sorted = Ascending-sort_by id_of (select_all p w.db.events) in
    let from : All (λ (y : ConversationEvent). after ≤ y.id) (take limit rows) =
      All-take _ limit rows (
        All-map (λ (y : ConversationEvent). after < y.id) (λ (y : ConversationEvent). after ≤ y.id)
          rows (λ y lt. omega arith) above) in
    (
      take limit rows,
      last_id after (take limit rows),
      refl,
      All-take _ limit rows
          (All-map (λ e. p e ≡ true) _ rows (λ e hit. replayed-parts u after w e hit) wanted),
      length-take limit rows ∙ ap (min limit) (length-replayed u after w),
      (up_to_cursor after (take limit rows) (Ascending-take limit rows sorted) from).0,
      λ k.
          rw
            (
              page_holds limit after k rows sorted above (
                  let less = fewer p (has_id k) w.db.events in
                  let all = unique k in rw (rows_hold u after k w) (omega arith)),
              rows_hold u after k w,
            )
            refl,
    )
