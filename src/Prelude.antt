-- ===== src/Prelude.antt =====
-- The names that the other modules share: the libraries', passed on, and those of the children.
mod Tests
mod Lists
mod Order
pub mod Int
pub mod Sort
mod Assoc
mod Pigeon
pub use Tests.*
pub use Lists.*
pub use Prim.Native.Nat.{ℕ, zero, suc, ◌+◌, ◌-◌, ◌*◌, ◌/◌, ◌%◌, ◌^◌, ◌≤◌, ◌<◌}
pub use Prim.Native.String.{String}
pub use Prim.Native.String.{◌++◌ as text_append}
pub use mathlib.Core.Path.{◌≡◌, refl, sym, ap, ◌∙◌}
pub use mathlib.Core.Logic.{◌≢◌, ◌↔◌, ◌⊎◌, inl, inr}
pub use mathlib.Core.Bool.{Bool, true, false, not, ◌&&◌, ◌||◌}
pub use mathlib.Core.Option.{Option, none, some}
pub use mathlib.Core.List.{List, [], ◌∷◌, ◌++◌, map}
pub use native.Mathlib.Omega.{arith}
pub use text.Mathlib.Text.{◌==◌}
pub use text.Mathlib.TextEquality.{eq_iff}
pub use text.Mathlib.TextPositions.{eq_refl}
unfoldable pub use Order.{str_leb}
pub use Order.{differ, str_leb_refl, str_leb_trans, str_leb_antisym, str_leb_total}
unfoldable pub use Assoc.{lookup, insert, remove, keys}
pub use Pigeon.{Disjoint, Subset, length-le_of_subset, length-Disjoint_le}
pub use Assoc.{
  lookup-insert, lookup-remove, lookup-insert_self, In-keys-insert, Distinct-keys-insert,
  lookup-In-keys, In-keys-lookup, Distinct-keys-remove, remove-absent, lookup-absent,
}
