-- ===== src/Base.antt =====
-- The names that the other modules share: the libraries', passed on, and those of the children
-- (tests on numbers, lists, texts, signed integers).
mod Bools
mod Lists
mod Int
mod Texts
mod Sets
mod Maps
pub mod Sorting
pub mod Double
pub mod Decimal
pub mod Js
pub use Bools.*
pub use Lists.*
unfoldable pub use Int.*
unfoldable pub use Texts.*
unfoldable pub use Sets.*
unfoldable pub use Maps.*
pub use Prim.Native.Nat.{ℕ, zero, suc, ◌+◌, ◌-◌, ◌*◌, ◌/◌, ◌%◌, ◌^◌, ◌≤◌, ◌<◌, min, max}
pub use Prim.Native.String.{String}
pub use mathlib.Core.Path.{◌≡◌, refl, sym, ap, ap₂, ◌∙◌}
pub use mathlib.Core.Logic.{◌≢◌, ◌↔◌, ◌⊎◌, inl, inr}
pub use mathlib.Core.Bool.{Bool, true, false, not, ◌&&◌, ◌||◌}
pub use mathlib.Core.Option.{Option, none, some}
pub use mathlib.Core.List.{List, [], ◌∷◌, ◌++◌, map, append-nil, append_assoc}
pub use native.Mathlib.Omega.{arith}
