-- ===== src/Base.antt =====
-- The names that every other module shares: the libraries', and those of the children.
pub mod Equality
pub mod Int
pub mod Lists
pub mod Errors
pub mod Messages
pub mod Dict
pub mod Order
pub mod Text
pub mod Transaction
pub mod Json
pub mod Sorting
pub mod Numeral
pub mod Document
unfoldable pub use Equality.*
unfoldable pub use Int.*
unfoldable pub use Lists.*
unfoldable pub use Errors.*
unfoldable pub use Dict.*
unfoldable pub use Text.*
pub use Prim.Native.Nat.{ℕ, zero, suc, ◌+◌, ◌-◌, ◌*◌, ◌/◌, ◌%◌, ◌≤◌, ◌<◌}
pub use Prim.Native.String.{String}
pub use mathlib.Core.Path.{◌≡◌, refl, sym, ◌∙◌, ap, subst}
pub use mathlib.Core.Logic.{◌≢◌, ◌↔◌, ◌⊎◌, inl, inr}
pub use mathlib.Core.Bool.{Bool, true, false, not, ◌&&◌, ◌||◌}
pub use mathlib.Core.Option.{Option, none, some}
pub use mathlib.Core.List.{List, [], ◌∷◌, ◌++◌, map, map-append, append_assoc, append-nil}
pub use native.Mathlib.Omega.{arith}
unfoldable pub use native.Mathlib.Decide.{ℕ_discrete}
