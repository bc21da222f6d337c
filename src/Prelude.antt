-- ===== src/Prelude.antt =====
-- The names that the modules of the library share: the standard libraries' and those of
-- the children (Boolean tests on numbers, measured lists and their updates, signed integers, texts
-- as code points).
mod Tests
mod Lists
mod Updates
pub mod Int
pub mod Fallible
pub mod Space
pub mod Tables
mod Chars
pub use Tests.*
pub use Lists.*
pub use Updates.*
unfoldable pub use Chars.*
pub use Prim.Native.Nat.{ℕ, zero, suc, ◌+◌, ◌-◌, ◌*◌, ◌/◌, ◌%◌, ◌^◌, ◌≤◌, ◌<◌}
pub use mathlib.Core.Path.{◌≡◌, refl, sym, ap, ◌∙◌}
pub use mathlib.Core.Logic.{◌≢◌, ◌↔◌, ◌⊎◌, inl, inr}
pub use mathlib.Core.Bool.{Bool, true, false, not, ◌&&◌, ◌||◌}
pub use mathlib.Core.Option.{Option, none, some}
pub use mathlib.Core.List.{List, [], ◌∷◌, ◌++◌, map}
pub use native.Mathlib.Omega.{arith}
