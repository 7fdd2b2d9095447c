-- ===== src/Base.antt =====
-- The names that the other modules share: the libraries', passed on, and those of the children.
mod Tests
mod Lists
mod Maps
pub mod Sort
pub mod Int
pub mod Float
pub mod Text
pub mod Utf16
pub use Tests.*
pub use Lists.*
unfoldable pub use Maps.{Map, lookup, insert, delete}
pub use Maps.{
  lookup-insert, lookup-delete, map_laws, IsDistinct, insert-IsDistinct, keep_values,
  keep-IsDistinct, lookup-keep_values, filtered, one_of, delete-IsDistinct,
}
pub use Prim.Native.Nat.{ℕ, zero, suc, ◌+◌, ◌-◌, ◌*◌, ◌/◌, ◌%◌, ◌^◌, ◌≤◌, ◌<◌, min}
pub use Prim.Native.String.{String}
pub use mathlib.Core.Path.{◌≡◌, refl, sym, ap, ◌∙◌, subst}
pub use mathlib.Core.Logic.{◌≢◌, ◌↔◌, ◌⊎◌, inl, inr}
pub use mathlib.Core.Bool.{Bool, true, false, not, ◌&&◌, ◌||◌}
pub use mathlib.Core.Option.{Option, none, some}
pub use mathlib.Core.List.{List, [], ◌∷◌, ◌++◌, map}
pub use native.Mathlib.Omega.{arith}
