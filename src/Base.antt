-- ===== src/Base.antt =====
-- The names that all modules share: the libraries', passed on, and those of three children.
mod Tests
mod Lists
mod Rows
pub use Tests.*
pub use Lists.*
unfoldable pub use Rows.{select_one, select_all, update_rows, delete_rows, count_rows}
pub use Rows.{
  select_one-holds, select_one-All, select_one-append, All-update, select_one-update,
  count_rows-update, count_rows-append, update_rows-update, All-update_new, count_rows-update-le,
  count_rows-update_out, count_rows-update_one, select_all-holds, select_all-All,
  length-select_all-le, select_all-none, delete_rows-append_new, count_rows-update-add,
}
pub use Prim.Native.Nat.{ℕ, zero, suc, ◌+◌, ◌-◌, ◌*◌, ◌/◌, ◌%◌, ◌^◌, ◌≤◌, ◌<◌, min, max}
pub use mathlib.Core.Path.{◌≡◌, refl, sym, ap, ◌∙◌, fun_ext}
pub use mathlib.Core.Logic.{◌≢◌, ◌↔◌, ◌⊎◌, inl, inr}
pub use mathlib.Core.Bool.{Bool, true, false, not, ◌&&◌, ◌||◌}
pub use mathlib.Core.Option.{Option, none, some}
pub use mathlib.Core.List.{List, [], ◌∷◌, ◌++◌, map}
pub use native.Mathlib.Omega.{arith}
