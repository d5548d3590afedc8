-- ===== src/Common.antt =====
-- What the modules share: library names passed on, tests on numbers, lists, texts, results and
-- signed integers. It models no file of the repository by itself.
mod Tests
mod Lists
mod Fallible
mod Tables
pub mod Text
pub mod Trim
pub mod Int
pub mod Keyed
pub use Tests.*
pub use Lists.{
  length, get_elem?, take, drop, length-append, length-take, length-drop, any, all, All, All-append,
  All-imp, append-nil_left, append-nil_right, any-append, concat-nil,
}
pub use Fallible.*
pub use Tables.*
pub use Prim.Native.Nat.{ℕ, zero, suc, ◌+◌, ◌-◌, ◌*◌, ◌/◌, ◌%◌, ◌^◌, ◌≤◌, ◌<◌, min, max}
pub use mathlib.Core.Path.{◌≡◌, refl, sym, ap, ◌∙◌}
pub use mathlib.Core.Logic.{◌≢◌, ◌↔◌, ◌⊎◌, inl, inr}
pub use mathlib.Core.Bool.{Bool, true, false, not, ◌&&◌, ◌||◌}
pub use mathlib.Core.Option.{Option, none, some}
pub use mathlib.Core.List.{List, [], ◌∷◌, ◌++◌, map, append-nil, append_assoc}
pub use native.Mathlib.Omega.{arith}
unfoldable pub use Lists.{concat}
unfoldable pub use native.Mathlib.Decide.{ℕ_discrete}
