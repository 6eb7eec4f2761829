-- ===== src/Prelude.antt =====
-- The names that the modules of the library share: the proof library's, passed on, the Boolean
-- tests and lists over the native numbers, and the unsigned machine words of the C code.
mod Tests
mod Lists
mod Reversed
mod Words
mod Arith
pub use Tests.*
pub use Lists.*
pub use Reversed.*
pub use Words.*
pub use Arith.*
pub use Prim.Native.Nat.{ℕ, zero, suc, ◌+◌, ◌-◌, ◌*◌, ◌/◌, ◌%◌, ◌^◌, ◌≤◌, ◌<◌, min, max}
pub use mathlib.Core.Path.{◌≡◌, refl, sym, ap, ◌∙◌}
pub use mathlib.Core.Logic.{◌≢◌, ◌↔◌, ◌⊎◌, inl, inr}
pub use mathlib.Core.Bool.{Bool, true, false, not, ◌&&◌, ◌||◌}
pub use mathlib.Core.Option.{Option, none, some}
pub use mathlib.Core.List.{List, [], ◌∷◌, ◌++◌, map}
pub use native.Mathlib.Omega.{arith}
