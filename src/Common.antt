-- ===== src/Common.antt =====
-- The names that the components share: the libraries', passed on, and those of the modules below.
-- `Tests` has Boolean tests on numbers and the conditional, `Lists` lists that are used as sets,
-- `Assoc` Go maps with a number (an id, a uuid) as key, `Text` strings as runes.
mod Tests
pub mod Lists
pub mod Ids
pub mod Assoc
pub mod Text
pub mod Base64
pub use Tests.*
pub use Lists.*
pub use Ids.*
unfoldable pub use Ids.{update}
unfoldable pub use Lists.{contains, add, remove, count}
pub use Prim.Native.Nat.{ℕ, zero, suc, ◌+◌, ◌-◌, ◌*◌, ◌/◌, ◌%◌, ◌^◌, ◌≤◌, ◌<◌}
pub use mathlib.Core.Path.{◌≡◌, refl, sym, ap, ◌∙◌}
pub use mathlib.Core.Logic.{◌≢◌, ◌↔◌, ◌⊎◌, inl, inr}
pub use mathlib.Core.Bool.{Bool, true, false, not, ◌&&◌, ◌||◌}
pub use mathlib.Core.Option.{Option, none, some}
pub use mathlib.Core.List.{List, [], ◌∷◌, ◌++◌, map}
pub use native.Mathlib.Omega.{arith}
