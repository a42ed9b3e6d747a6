-- ===== src/Base.antt =====
-- The names that the modules share: the libraries', passed on, Boolean tests and lists over the
-- native numbers, and the outcome of code that can stop.
mod Tests
mod Lists
mod Outcome
mod Writes
mod Reads
pub use Tests.*
unfoldable pub use Lists.*
pub use Outcome.*
pub use Writes.*
pub use Reads.*
pub use Prim.Native.Nat.{ℕ, zero, suc, ◌+◌, ◌-◌, ◌*◌, ◌/◌, ◌%◌, ◌^◌, ◌≤◌, ◌<◌, max}
pub use mathlib.Core.Path.{◌≡◌, refl, sym, ap, ◌∙◌, subst}
pub use mathlib.Core.Logic.{◌≢◌, ◌↔◌, ◌⊎◌, inl, inr}
pub use mathlib.Core.Bool.{Bool, true, false, not, ◌&&◌, ◌||◌}
pub use mathlib.Core.Option.{Option, none, some}
pub use mathlib.Core.List.{List, [], ◌∷◌, ◌++◌, map}
pub use native.Mathlib.Omega.{arith}
