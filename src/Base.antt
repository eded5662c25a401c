-- ===== src/Base.antt =====
-- Shared names of the kernel development: the libraries' names passed on, Boolean tests on native
-- numbers, lists measured by native numbers, single bits of a byte, and C strings.
mod Tests
mod Lists
mod Bits
mod Or
mod Predicates
mod Search
mod Loops
mod Text
pub use Tests.*
unfoldable pub use Lists.*
pub use Or.*
unfoldable pub use Bits.*
unfoldable pub use Text.*
unfoldable pub use Loops.*
unfoldable pub use Search.*
pub use Predicates.*
pub use Prim.Native.Nat.{ℕ, zero, suc, ◌+◌, ◌-◌, ◌*◌, ◌/◌, ◌%◌, ◌^◌, ◌≤◌, ◌<◌, min, max}
pub use mathlib.Core.Path.{◌≡◌, refl, sym, ap, ap₂, ◌∙◌, subst}
pub use mathlib.Core.Logic.{◌≢◌, ◌↔◌, ◌⊎◌, inl, inr}
pub use mathlib.Core.Bool.{Bool, true, false, not, ◌&&◌, ◌||◌}
pub use mathlib.Core.Option.{Option, none, some}
pub use mathlib.Core.List.{List, [], ◌∷◌, ◌++◌, map, append-nil, append_assoc}
pub use native.Mathlib.Omega.{arith}
