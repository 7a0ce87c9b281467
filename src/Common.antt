-- ===== src/Common.antt =====
-- The names that all modules share: the libraries' names, Boolean tests, machine words, counted
-- loops and families indexed by a number.
mod Tests
mod Loops
mod Text
pub mod Bits
pub use Tests.*
pub use Text.{codes}
unfoldable pub use Loops.{for_to}
pub use Loops.{for_to_inv, below, update, map_below, map_below-suc, length, take, replicate}
pub use Prim.Native.Nat.{
  ℕ, zero, suc, ◌+◌, ◌-◌, ◌*◌, ◌/◌, ◌%◌, ◌^◌, ◌≤◌, ◌<◌, min, max, compare, Ordering,
}
pub use mathlib.Core.Path.{◌≡◌, refl, sym, ◌∙◌, ap, fun_ext, subst}
pub use mathlib.Core.Logic.{◌≢◌, ◌↔◌, ◌⊎◌, inl, inr}
pub use mathlib.Core.Bool.{Bool, true, false, not, ◌&&◌, ◌||◌}
pub use mathlib.Core.Option.{Option, none, some}
pub use mathlib.Core.List.{List, [], ◌∷◌, ◌++◌}
pub use native.Mathlib.Omega.{arith}
