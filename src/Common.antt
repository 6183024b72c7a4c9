-- ===== src/Common.antt =====
-- The names that every module shares: those of the libraries, passed on, Boolean tests on the native
-- numbers, and lists measured by native numbers.
mod Tests
mod Lists
mod Positions
pub mod Bits
pub mod Xor
pub mod Splice
pub mod Holds
pub mod Text
pub use Tests.*
pub use Lists.*
pub use Positions.*
pub use Prim.Native.Nat.{ℕ, zero, suc, ◌+◌, ◌-◌, ◌*◌, ◌/◌, ◌%◌, ◌^◌, ◌≤◌, ◌<◌, min}
pub use mathlib.Core.Path.{◌≡◌, refl, sym, ap, ◌∙◌}
pub use mathlib.Core.Logic.{◌≢◌, ◌⊎◌, inl, inr}
pub use mathlib.Core.Bool.{Bool, true, false, not, ◌&&◌, ◌||◌}
pub use mathlib.Core.Option.{Option, none, some}
pub use mathlib.Core.List.{List, [], ◌∷◌, ◌++◌, map, append-nil, append_assoc}
pub use native.Mathlib.Omega.{arith}
