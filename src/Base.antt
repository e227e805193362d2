-- ===== src/Base.antt =====
-- Names that the other modules share: the libraries' names passed on, the tests on numbers, lists
-- by native index, C byte strings, and the outcome of code that may fail an assertion.
mod Tests
mod Lists
mod Text
mod Result
mod Endian
pub use Tests.*
pub use Lists.*
unfoldable pub use Text.*
pub use Result.*
unfoldable pub use Endian.*
pub use Prim.Native.Nat.{ℕ, zero, suc, ◌+◌, ◌-◌, ◌*◌, ◌/◌, ◌%◌, ◌^◌, ◌≤◌, ◌<◌}
pub use mathlib.Core.Path.{◌≡◌, refl, sym, ap, ◌∙◌}
pub use mathlib.Core.Logic.{◌≢◌, ◌⊎◌, inl, inr}
pub use mathlib.Core.Bool.{Bool, true, false, not, ◌&&◌, ◌||◌}
pub use mathlib.Core.Option.{Option, none, some}
pub use mathlib.Core.List.{List, [], ◌∷◌, ◌++◌, append_assoc, append-nil}
pub use native.Mathlib.Omega.{arith}
