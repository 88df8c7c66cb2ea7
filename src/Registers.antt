-- ===== src/Registers.antt =====
-- A dict from texts to sets, as `_by_user` and `_by_channel` of backend/app/ws/manager.py are: rows of
-- a key and the ids of the elements. A dict has one row for a key; the operations treat all rows of a
-- key alike.
use runnerup_chat.Base.{
  Bool, true, false, ◌||◌, List, [], ◌∷◌, ◌++◌, ◌==◌, if◌then◌else◌, delete_rows,
}
use runnerup_chat.Texts.{same_text, any_of}
use runnerup_chat.Models.Accounts.{Uuid, Text}

pub record Entries : Type 0 where
  pub key : Text
  pub ids : List Uuid

abbrev pub Register : Type 0
Register = List Entries

abbrev pub is_empty : List Uuid → Bool
is_empty [] = true
is_empty (i ∷ is) = false

-- `set.discard`
unfoldable pub discard : Uuid → List Uuid → List Uuid
unfolding delete_rows
discard i is = delete_rows (λ x. x == i) is

-- `register.get(k, ())`
unfoldable pub held : Text → Register → List Uuid
held k [] = []
held k (r ∷ rs) = if same_text r.key k then r.ids ++ held k rs else held k rs

-- `k in register`
unfoldable pub is_key : Text → Register → Bool
is_key k [] = false
is_key k (r ∷ rs) = same_text r.key k || is_key k rs

unfoldable pub put : Text → Uuid → Register → Register
put k i [] = record { key = k; ids = i ∷ [] } ∷ []
put k i (r ∷ rs) =
    if same_text r.key k then record r { ids = r.ids ++ i ∷ [] } ∷ rs else r ∷ put k i rs

-- `register[k].add(i)` on a `defaultdict(set)`
unfoldable pub enter : Text → Uuid → Register → Register
unfolding held put
enter k i t = if any_of (held k t) i then t else put k i t

-- A row whose set is now this one; an empty one is deleted.
unfoldable pub shrink : Text → List Uuid → Register → Register
shrink k [] rest = rest
shrink k (x ∷ xs) rest = record { key = k; ids = x ∷ xs } ∷ rest

-- `register[k].discard(i)`, and the key is deleted where its set is empty now.
unfoldable pub leave : Text → Uuid → Register → Register
unfolding discard shrink
leave k i [] = []
leave k i (r ∷ rs) =
    let rest = leave k i rs in
    if same_text r.key k then shrink r.key (discard i r.ids) rest else r ∷ rest

-- Reading `register[k]` on a `defaultdict(set)` leaves an empty set behind.
unfoldable pub touch : Text → Register → Register
unfolding is_key
touch k t = if is_key k t then t else t ++ record { key = k; ids = [] } ∷ []
