-- ===== src/Base.antt =====
-- Names that the other modules share: numbers and Boolean tests, lists measured by native numbers,
-- bits and machine words, and the commands that stateful code is made of.
mod Tests
mod Lists
mod Bits
mod Words
mod Commands
pub use Tests.*
pub use Lists.*
unfoldable pub use Bits.*
pub use Words.*
pub use Commands.*
pub use Prim.Native.Nat.{ℕ, zero, suc, ◌+◌, ◌-◌, ◌*◌, ◌/◌, ◌%◌, ◌^◌, ◌≤◌, ◌<◌}
pub use Prim.Native.Nat.{bit_and, bit_or, min, max}
pub use mathlib.Core.Path.{◌≡◌, refl, sym, ap, ap₂, ◌∙◌}
pub use mathlib.Core.Logic.{◌≢◌, ◌↔◌, ◌⊎◌, inl, inr}
pub use mathlib.Core.Bool.{Bool, true, false, not, ◌&&◌, ◌||◌}
pub use mathlib.Core.Option.{Option, none, some}
pub use mathlib.Core.List.{List, [], ◌∷◌, ◌++◌, map}
pub use native.Mathlib.Omega.{arith}
