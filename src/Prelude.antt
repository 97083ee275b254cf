-- ===== src/Prelude.antt =====
-- The names that the other modules share: the libraries', passed on, and those of its children.
mod Tests
mod Lists
mod Text
mod Maps
mod Sorting
mod Int
pub use Tests.*
pub use Int.{ℤ, pos, negsuc, pos_part, neg_part, ◌≤ℤ◌, ltb_ℤ}
pub use Lists.*
pub use Maps.{lookup, lookup-store, lookup-store_ne}
unfoldable pub use Maps.{store}
pub use Sorting.{
  length-insert_by, length-sort_by, IsOrdered, insert_by-All, sort_by-All, sort_by-IsOrdered,
}
unfoldable pub use Sorting.{insert_by, sort_by}
pub use Text.{◌+s◌, first_is, drop_first, push_first, starts_with}
unfoldable pub use Text.{strip_prefix, join, split_on, last_is, drop_last}
pub use Prim.Native.Nat.{ℕ, zero, suc, ◌+◌, ◌-◌, ◌*◌, ◌/◌, ◌%◌, ◌≤◌, ◌<◌}
pub use Prim.Native.String.{String}
pub use mathlib.Core.Path.{◌≡◌, refl, sym, ap, ◌∙◌}
pub use mathlib.Core.Logic.{◌≢◌, ◌↔◌, ◌⊎◌, inl, inr}
pub use mathlib.Core.Bool.{Bool, true, false, not, ◌&&◌, ◌||◌}
pub use mathlib.Core.Option.{Option, none, some}
pub use mathlib.Core.List.{List, [], ◌∷◌, ◌++◌, map}
pub use native.Mathlib.Omega.{arith}
pub use text.Mathlib.Text.{◌==◌ as ◌=s=◌}
pub use text.Mathlib.TextEquality.{eq_iff}
pub use text.Mathlib.TextPositions.{eq_refl}
