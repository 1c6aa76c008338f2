-- ===== src/Common.antt =====
-- The names that every component shares: the libraries', passed on, and those of its children
-- on tests, lists, database tables and their keys.
mod Tests
mod Lists
mod Table
mod Found
mod Keys
mod Counts
mod Newest
pub use Tests.*
pub use Lists.*
pub use Table.*
pub use Found.*
pub use Keys.*
pub use Counts.*
pub use Newest.*
pub use Prim.Native.Nat.{ℕ, zero, suc, ◌+◌, ◌-◌, ◌*◌, ◌/◌, ◌%◌, ◌≤◌, ◌<◌, min, max}
pub use mathlib.Core.Path.{◌≡◌, refl, sym, ap, subst, ◌∙◌}
pub use mathlib.Core.Logic.{◌≢◌, ◌↔◌, ◌⊎◌, inl, inr}
pub use mathlib.Core.Bool.{Bool, true, false, not, ◌&&◌, ◌||◌}
pub use mathlib.Core.Option.{Option, none, some}
pub use mathlib.Core.List.{List, [], ◌∷◌, ◌++◌, map}
pub use native.Mathlib.Omega.{arith}
