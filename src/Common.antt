-- ===== src/Common.antt =====
-- The names that all modules share: the libraries', passed on, and those of the children:
-- tests on numbers, lists measured by native numbers, byte strings, association maps, results.
mod Tests
mod Lists
mod ByteStrings
mod Maps
mod Results
pub mod Optional
pub mod Xor
pub mod Int
pub mod Perm
pub mod Entries
pub use Tests.*
pub use Lists.*
pub use ByteStrings.*
pub use Maps.*
pub use Results.*
pub use Prim.Native.Nat.{ℕ, zero, suc, ◌+◌, ◌-◌, ◌*◌, ◌/◌, ◌%◌, ◌^◌, ◌≤◌, ◌<◌, min}
pub use mathlib.Core.Path.{◌≡◌, refl, sym, ap, ap₂, ◌∙◌, subst}
pub use mathlib.Core.Logic.{◌≢◌, ◌↔◌, ◌⊎◌, inl, inr}
pub use mathlib.Core.Bool.{Bool, true, false, not, ◌&&◌, ◌||◌}
pub use mathlib.Core.Option.{Option, none, some}
pub use mathlib.Core.List.{List, [], ◌∷◌, ◌++◌, map, append-nil, append_assoc}
pub use native.Mathlib.Omega.{arith}
