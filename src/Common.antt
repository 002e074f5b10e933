-- ===== src/Common.antt =====
-- The names that the other modules share: numbers, tests, byte strings and the machine words of
-- the C sources.
mod Tests
mod Lists
mod Words
mod Status
mod Cases
mod Resources
pub mod Bits
pub use Tests.*
pub use Lists.*
pub use Cases.*
unfoldable pub use Resources.*
unfoldable pub use Words.*
pub use Status.*
pub use Prim.Native.Nat.{ℕ, zero, suc, ◌+◌, ◌-◌, ◌*◌, ◌/◌, ◌%◌, ◌^◌, ◌≤◌, ◌<◌}
pub use mathlib.Core.Path.{◌≡◌, refl, sym, ap, ap₂, ◌∙◌, subst}
pub use mathlib.Core.Logic.{◌≢◌, ◌↔◌, ◌⊎◌, inl, inr}
pub use mathlib.Core.Bool.{Bool, true, false, not, ◌&&◌, ◌||◌}
pub use mathlib.Core.Option.{Option, none, some}
pub use mathlib.Core.List.{List, [], ◌∷◌, ◌++◌}
pub use native.Mathlib.Omega.{arith}
