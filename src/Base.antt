-- ===== src/Base.antt =====
-- The names that the other modules share: the libraries', passed on, and those of the children.
mod Tests
mod Arith
mod Lists
mod Results
mod Dict
mod Slices
mod Masks
mod Gathers
mod Sums
pub mod Int
pub mod Ranges
pub mod Multiples
pub use Tests.*
pub use Arith.*
pub use Lists.*
pub use Results.*
unfoldable pub use Slices.*
pub use Masks.*
pub use Gathers.*
pub use Sums.*
unfoldable pub use Dict.{
  dict_get, dict_has, dict_set, dict_update, dict_keys, map_values, traverse_values, traverse_keys,
}
pub use Dict.{
  traverse_values-ok, traverse_keys-ok, dict_get-All, dict_get-map_values, dict_get-set,
  dict_has_iff, dict_keys-map_values,
}
pub use Prim.Native.Nat.{ℕ, zero, suc, ◌+◌, ◌-◌, ◌*◌, ◌/◌, ◌%◌, ◌^◌, ◌≤◌, ◌<◌, min, max}
pub use Prim.Native.String.{String}
pub use mathlib.Core.Path.{◌≡◌, refl, sym, ap, ap₂, subst, ◌∙◌}
pub use mathlib.Core.Logic.{◌≢◌, ◌↔◌, ◌⊎◌, inl, inr}
pub use mathlib.Core.Bool.{Bool, true, false, not, ◌&&◌, ◌||◌}
pub use mathlib.Core.Option.{Option, none, some}
pub use mathlib.Core.List.{List, [], ◌∷◌, ◌++◌, map, append_assoc, append-nil}
pub use native.Mathlib.Omega.{arith}
pub use text.Mathlib.Text.{◌==◌ as str_eq}
pub use text.Mathlib.TextEquality.{eq_iff}
