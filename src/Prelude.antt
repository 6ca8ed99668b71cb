-- ===== src/Prelude.antt =====
-- What the modules share: the libraries' names, passed on, and those of the children.
mod Tests
mod Lists
mod Strings
pub mod Bits
pub mod Int
pub mod Errors
pub mod Exec
pub use Tests.*
pub use Lists.*
pub use Strings.*
unfoldable pub use Strings.{contains, has_suffix, replace_first, join, split, decimal, digits_of}
pub use Errors.{Error, msg, wrap, Result, ok, err, Result-cases}
pub use Prim.Native.Nat.{ℕ, zero, suc, ◌+◌, ◌-◌, ◌*◌, ◌/◌, ◌%◌, ◌^◌, ◌≤◌, ◌<◌}
pub use mathlib.Core.Path.{◌≡◌, refl, sym, ap, ◌∙◌}
pub use mathlib.Core.Logic.{◌≢◌, ◌↔◌, ◌⊎◌, inl, inr}
pub use mathlib.Core.Bool.{Bool, true, false, ◌&&◌, ◌||◌}
pub use mathlib.Core.Option.{Option, none, some}
pub use mathlib.Core.List.{List, [], ◌∷◌, ◌++◌, map, append_assoc, append-nil}
pub use native.Mathlib.Omega.{arith}
