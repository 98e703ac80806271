-- ===== src/Prelude.antt =====
-- The names that the modules share: the libraries', passed on, and those of the children: Boolean
-- tests, lists, membership, integers, dictionaries and exceptions as Python has them.
mod Tests
mod Lists
mod Members
mod Int
mod Dicts
mod Tables
mod Exceptions
mod Sorting
pub use Tests.*
pub use Lists.*
pub use Members.*
pub use Int.*
pub use Dicts.*
pub use Tables.*
pub use Exceptions.*
unfoldable pub use Sorting.*
pub use Prim.Native.Nat.{ℕ, zero, suc, ◌+◌, ◌-◌, ◌*◌, ◌%◌, ◌^◌, ◌≤◌, ◌<◌}
pub use mathlib.Core.Path.{◌≡◌, refl, sym, ap, subst, ◌∙◌}
pub use mathlib.Core.Logic.{◌≢◌, ◌↔◌, ◌⊎◌, inl, inr}
pub use mathlib.Core.Bool.{Bool, true, false, not, ◌&&◌, ◌||◌}
pub use mathlib.Core.Option.{Option, none, some}
pub use mathlib.Core.List.{List, [], ◌∷◌, ◌++◌, map, reverse, append_assoc, append-nil}
pub use native.Mathlib.Omega.{arith}
