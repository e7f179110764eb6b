-- ===== src/Common.antt =====
-- The names that the other modules share: the library's, passed on, Boolean tests on the native
-- numbers, lists indexed by them, signed integers, little-endian bytes and the result type for
-- code that throws.
mod Tests
mod Lists
pub mod Int
pub mod Bytes
pub mod Slices
mod Throw
pub use Tests.*
pub use Lists.*
pub use Throw.*
pub use Prim.Native.Nat.{ℕ, zero, suc, ◌+◌, ◌-◌, ◌*◌, ◌/◌, ◌%◌, ◌^◌, ◌≤◌, ◌<◌}
pub use mathlib.Core.Path.{◌≡◌, refl, sym, ap, ◌∙◌}
pub use mathlib.Core.Logic.{◌≢◌, ◌↔◌, ◌⊎◌, inl, inr}
pub use mathlib.Core.Bool.{Bool, true, false, not, ◌&&◌, ◌||◌}
pub use mathlib.Core.Option.{Option, none, some}
pub use mathlib.Core.List.{List, [], ◌∷◌, ◌++◌, map}
pub use native.Mathlib.Omega.{arith}
