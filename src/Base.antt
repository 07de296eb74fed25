-- ===== src/Base.antt =====
-- Names that every module shares: the libraries', passed on, tests on numbers, lists under native
-- lengths, equality as an interface, and Python's fallible code as a result type.
mod Tests
mod Equality
mod Lists
pub mod Result
pub mod Text
pub mod Strip
pub mod Forest
pub mod Table
pub mod Loop
pub mod Int
pub use Tests.*
pub use Equality.*
pub use Lists.*
pub use Prim.Native.Nat.{ℕ, zero, suc, ◌+◌, ◌-◌, ◌*◌, ◌/◌, ◌%◌, ◌≤◌, ◌<◌}
pub use mathlib.Core.Path.{◌≡◌, refl, sym, ap, ◌∙◌, subst}
pub use mathlib.Core.Logic.{◌≢◌, ◌↔◌, ◌⊎◌, inl, inr}
pub use mathlib.Core.Bool.{Bool, true, false, not, ◌&&◌, ◌||◌}
pub use mathlib.Core.Option.{Option, none, some}
pub use mathlib.Core.List.{List, [], ◌∷◌, ◌++◌, map}
pub use native.Mathlib.Omega.{arith}
