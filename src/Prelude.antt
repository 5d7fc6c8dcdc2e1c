-- ===== src/Prelude.antt =====
-- The names that every part shares: the libraries' names passed on, and those of the children.
-- It models no code of its own.
mod Tests
mod Lists
mod Outcome
mod Table
mod Updates
mod Int
pub use Tests.*
pub use Lists.*
pub use Outcome.*
pub use Table.*
pub use Updates.*
pub use Int.*
pub use Prim.Native.Nat.{ℕ, zero, suc, ◌+◌, ◌-◌, ◌*◌, ◌/◌, ◌%◌, ◌≤◌, ◌<◌, min, max}
pub use mathlib.Core.Path.{◌≡◌, refl, sym, ap, ◌∙◌}
pub use mathlib.Core.Logic.{◌≢◌, ◌↔◌, ◌⊎◌, inl, inr}
pub use mathlib.Core.Bool.{Bool, true, false, not, ◌&&◌, ◌||◌}
pub use mathlib.Core.Option.{Option, none, some}
pub use mathlib.Core.List.{List, [], ◌∷◌, ◌++◌, map, Mem, mem-append_left, mem-append_right}
pub use native.Mathlib.Omega.{arith}
