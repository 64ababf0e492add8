-- ===== src/Prelude.antt =====
-- What every component shares: the library names passed on, the tests on native numbers, lists,
-- byte strings and association lists.
mod Tests
mod Lists
mod Strings
mod Maps
mod Decimal
mod Parse
mod Int
mod Streams
mod Printed
pub use Tests.*
pub use Lists.*
unfoldable pub use Strings.*
unfoldable pub use Maps.*
unfoldable pub use Decimal.*
unfoldable pub use Parse.*
unfoldable pub use Int.*
unfoldable pub use Streams.*
unfoldable pub use Printed.*
pub use Prim.Native.Nat.{ℕ, zero, suc, ◌+◌, ◌-◌, ◌*◌, ◌/◌, ◌%◌, ◌^◌, ◌≤◌, ◌<◌, min, max}
pub use mathlib.Core.Path.{◌≡◌, refl, sym, ap, ◌∙◌, subst}
pub use mathlib.Core.Logic.{◌≢◌, ◌↔◌, ◌⊎◌, inl, inr}
pub use mathlib.Core.Bool.{Bool, true, false, not, ◌&&◌, ◌||◌}
pub use mathlib.Core.Option.{Option, none, some}
pub use mathlib.Core.List.{List, [], ◌∷◌, ◌++◌, map, append_assoc, append-nil}
pub use native.Mathlib.Omega.{arith}
