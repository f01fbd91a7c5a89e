-- ===== src/Prelude.antt =====
-- The names that the other modules share: those of the libraries, passed on, and of four children; Bytes, Decimal, Maps and Dicts are used by their own.
mod Tests
mod Lists
mod Partial
mod Words
pub mod Bytes
pub mod Decimal
pub mod Maps
pub mod Dicts
pub use Tests.*
pub use Lists.*
pub use Partial.*
pub use Words.*
pub use Prim.Native.Nat.{ℕ, zero, suc, ◌+◌, ◌-◌, ◌*◌, ◌/◌, ◌%◌, ◌^◌, ◌≤◌, ◌<◌, min}
pub use mathlib.Core.Path.{◌≡◌, refl, sym, ap, ap₂, subst, ◌∙◌}
pub use mathlib.Core.Logic.{◌≢◌, ◌↔◌, ◌⊎◌, inl, inr}
pub use mathlib.Core.Bool.{Bool, true, false, not, ◌&&◌, ◌||◌}
pub use mathlib.Core.Option.{Option, none, some}
pub use mathlib.Core.List.{List, [], ◌∷◌, ◌++◌, map, append-nil, append_assoc}
pub use native.Mathlib.Omega.{arith}
