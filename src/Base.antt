-- ===== src/Base.antt =====
-- The names that the other modules share: the libraries' names, passed on, and those of the
-- children (tests and conditionals, lists by native indices, C strings as bytes, the C `int`).
mod Tests
mod Lists
mod Int
mod Text
mod Decimal
mod Digits
pub use Tests.*
pub use Lists.*
pub use Int.*
unfoldable pub use Text.{str_eq, strtol, wrap_int, atoi, skip_space, magnitude}
pub use Text.*
unfoldable pub use Decimal.{print_nat, print_int, snprintf}
pub use Decimal.*
pub use Digits.*
pub use Prim.Native.Nat.{ℕ, zero, suc, ◌+◌, ◌-◌, ◌*◌, ◌/◌, ◌%◌, ◌^◌, ◌≤◌, ◌<◌}
pub use mathlib.Core.Path.{◌≡◌, refl, sym, ap, ap₂, ◌∙◌, subst}
pub use mathlib.Core.Logic.{◌≢◌, ◌↔◌, ◌⊎◌, inl, inr}
pub use mathlib.Core.Bool.{Bool, true, false, ◌&&◌, ◌||◌, not}
pub use mathlib.Core.Option.{Option, none, some}
pub use mathlib.Core.List.{List, [], ◌∷◌, ◌++◌, map}
pub use Prim.Native.String.{String}
pub use native.Mathlib.Omega.{arith}
