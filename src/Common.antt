-- ===== src/Common.antt =====
-- What the modules share: the libraries' names passed on, tests and lists over the native
-- numbers, outcomes of Go calls, signed numbers, bytes and the interface of float64.
mod Tests
mod Lists
mod Outcomes
mod Endings
pub mod Everywhere
pub mod Choice
pub mod Texts
pub mod Maps
pub mod Int
pub mod Bytes
pub mod Floats
pub mod Crypto
pub mod Fixed
pub use Tests.*
pub use Lists.*
pub use Outcomes.*
pub use Endings.*
pub use Prim.Native.Nat.{ℕ, zero, suc, ◌+◌, ◌-◌, ◌*◌, ◌/◌, ◌%◌, ◌^◌, ◌≤◌, ◌<◌}
pub use mathlib.Core.Path.{◌≡◌, refl, sym, ap, ◌∙◌, subst}
pub use mathlib.Core.Logic.{◌≢◌, ◌↔◌, ◌⊎◌, inl, inr}
pub use mathlib.Core.Bool.{Bool, true, false, not, ◌&&◌, ◌||◌}
pub use mathlib.Core.Option.{Option, none, some}
pub use mathlib.Core.List.{List, [], ◌∷◌, ◌++◌, map}
pub use native.Mathlib.Omega.{arith}
