-- ===== src/Base.antt =====
-- The names that every component shares: the libraries', passed on, and those of the children:
-- Boolean tests, C arrays as lists, machine words, and the classes of characters.
mod Tests
mod Lists
mod Words
mod Ctype
pub use Tests.*
pub use Lists.*
pub use Words.*
pub use Ctype.*
pub use Prim.Native.Nat.{ℕ, zero, suc, ◌+◌, ◌-◌, ◌*◌, ◌/◌, ◌%◌, ◌^◌, ◌≤◌, ◌<◌, min}
pub use mathlib.Core.Path.{◌≡◌, refl, sym, ap, subst, ◌∙◌}
pub use mathlib.Core.Logic.{◌≢◌, ◌↔◌, ◌⊎◌, inl, inr}
pub use mathlib.Core.Bool.{Bool, true, false, not, ◌&&◌, ◌||◌}
pub use mathlib.Core.Option.{Option, none, some}
pub use mathlib.Core.List.{List, [], ◌∷◌, ◌++◌, map}
pub use native.Mathlib.Omega.{arith}
