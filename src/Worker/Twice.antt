-- ===== src/Worker/Twice.antt =====
-- The jobs of backend/app/worker.py, run twice.
use runnerup_chat.Base.{
  ◌≡◌, refl, inl, inr, Bool, List, [], ◌∷◌, Bool-cases, select_all, delete_rows,
}
use runnerup_chat.Errors.{ok}
use runnerup_chat.World.{World, commit}
use runnerup_chat.Worker.{
  is_old_challenge, is_orphan, purge_expired_otp, purge_orphan_attachments, cycle,
}

module _ {ℓ} {A : Type ℓ} (p : A → Bool) where
  delete_rows-twice : (xs : List A) → delete_rows p (delete_rows p xs) ≡ delete_rows p xs
  unfolding delete_rows
  delete_rows-twice [] = refl
  delete_rows-twice (x ∷ xs) = elim (Bool-cases (p x)) [
    | inl hit ↦ rw hit (delete_rows-twice xs)
    | inr miss ↦ rw (miss, miss, delete_rows-twice xs) refl
  ]

  select_all-delete_rows : (xs : List A) → select_all p (delete_rows p xs) ≡ []
  unfolding delete_rows select_all
  select_all-delete_rows [] = refl
  select_all-delete_rows (x ∷ xs) = elim (Bool-cases (p x)) [
    | inl hit ↦ rw hit (select_all-delete_rows xs)
    | inr miss ↦ rw (miss, miss) (select_all-delete_rows xs)
  ]

-- A round of the worker that is run again at once finds nothing more to do: it names no key, and leaves
-- the whole state as it is.
second_cycle_is_idle : (w : World) → cycle (cycle w).1 ≡ (ok [], (cycle w).1)
unfolding cycle purge_expired_otp purge_orphan_attachments commit
second_cycle_is_idle w =
    rw
      (
        delete_rows-twice (is_old_challenge w.now) w.db.challenges,
        delete_rows-twice (is_orphan w.now) w.db.attachments,
        select_all-delete_rows (is_orphan w.now) w.db.attachments,
      )
      refl
