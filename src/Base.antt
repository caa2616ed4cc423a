-- ===== src/Base.antt =====
-- The names that the other modules share: the libraries', passed on, and those of the children
-- (Boolean tests, lists over the native numbers, Go strings, Go maps, signed integers).
mod Tests
mod Lists
mod Strings
mod StrOrder
mod Entries
mod Int
pub mod Bytes
pub mod Slices
pub mod Time
pub mod Runes
pub mod Decimal
pub mod Text
pub mod Scan
pub mod Base64
pub mod Quote
pub mod Json
pub use Tests.*
pub use Lists.*
pub use StrOrder.*
unfoldable pub use Entries.*
pub use Int.*
unfoldable pub use Strings.*
pub use Prim.Native.Nat.{ℕ, zero, suc, ◌+◌, ◌-◌, ◌*◌, ◌/◌, ◌%◌, ◌^◌, ◌≤◌, ◌<◌}
pub use mathlib.Core.Path.{◌≡◌, refl, sym, ap, ap₂, ◌∙◌}
pub use mathlib.Core.Logic.{◌≢◌, ◌↔◌, ◌⊎◌, inl, inr}
pub use mathlib.Core.Bool.{Bool, true, false, not, ◌&&◌, ◌||◌}
pub use mathlib.Core.Option.{Option, none, some}
pub use mathlib.Core.List.{List, [], ◌∷◌, ◌++◌, map}
pub use native.Mathlib.Omega.{arith}
