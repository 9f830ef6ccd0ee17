-- ===== src/Prelude.antt =====
-- The names that the modules share: the libraries' names, passed on, and those of the children.
mod Tests
mod Int
mod Lists
mod Text
mod Order
mod Dictionary
mod Sorting
mod Filters
mod Fresh
pub use Tests.*
pub use Int.*
unfoldable pub use Int.{◌+ℤ◌}
pub use Lists.*
pub use Text.*
unfoldable pub use Text.{str_dec, add, update}
pub use Order.*
unfoldable pub use Order.{str_le}
pub use Dictionary.*
unfoldable pub use Dictionary.{lookup, insert, values, keys}
unfoldable pub use Sorting.{insert_by, sort_by, min_from}
pub use Sorting.*
pub use Filters.*
pub use Fresh.*
pub use Prim.Native.Nat.{ℕ, zero, suc, ◌+◌, ◌-◌, ◌*◌, ◌/◌, ◌%◌, ◌^◌, ◌≤◌, ◌<◌}
pub use Prim.Native.String.{String}
pub use mathlib.Core.Path.{◌≡◌, refl, sym, ap, ◌∙◌}
pub use mathlib.Core.Logic.{◌≢◌, ◌↔◌, ◌⊎◌, inl, inr, ite}
pub use mathlib.Core.Bool.{Bool, true, false, ◌&&◌, ◌||◌, not}
pub use mathlib.Core.Option.{Option, none, some}
pub use mathlib.Core.List.{List, [], ◌∷◌, ◌++◌}
pub use native.Mathlib.Omega.{arith}
unfoldable pub use native.Mathlib.Decide.{ℕ_discrete}
