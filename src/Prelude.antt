-- ===== src/Prelude.antt =====
-- What the other modules share: the libraries' names passed on, Boolean tests, lists measured by
-- native numbers, results of fallible code, machine words and maps.
mod Tests
mod Lists
mod Fallible
mod Words
mod Maps
mod Floats
mod Doubles
pub use Tests.*
pub use Lists.*
pub use Fallible.*
pub use Words.*
unfoldable pub use Words.{saturating_add, to_be_bytes}
pub use Floats.*
pub use Doubles.*
pub use Maps.*
pub use Prim.Native.Nat.{ℕ, zero, suc, ◌+◌, ◌-◌, ◌*◌, ◌/◌, ◌%◌, ◌^◌, ◌≤◌, ◌<◌, min, max}
pub use Prim.Native.String.{String}
pub use mathlib.Core.Path.{◌≡◌, refl, sym, ap, ◌∙◌, subst}
pub use mathlib.Core.Logic.{◌≢◌, ◌↔◌, ◌⊎◌, inl, inr}
pub use mathlib.Core.Bool.{Bool, true, false, ◌&&◌, ◌||◌, not}
pub use mathlib.Core.Option.{Option, none, some}
pub use mathlib.Core.List.{List, [], ◌∷◌, ◌++◌, map, append_assoc}
pub use native.Mathlib.Omega.{arith}
