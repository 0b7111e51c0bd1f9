-- ===== src/Common.antt =====
-- The names that the modules share: the libraries', passed on, and those of the children.
mod Tests
mod Integers
mod Lists
mod Texts
mod Maps
mod Sort
mod Errors
pub use Tests.*
pub use Integers.*
pub use Lists.*
unfoldable pub use Lists.{take}
pub use Texts.*
pub use Maps.*
unfoldable pub use Maps.{lookup, insert, delete, has, add, remove}
unfoldable pub use Texts.{text_le}
pub use Sort.*
unfoldable pub use Sort.{sort, insert_sorted, sort_texts}
pub use Errors.*
pub use Prim.Native.Nat.{ℕ, zero, suc, ◌+◌, ◌-◌, ◌≤◌, ◌<◌}
pub use Prim.Native.String.{String}
pub use mathlib.Core.Path.{◌≡◌, refl, sym, ap, ◌∙◌}
pub use mathlib.Core.Logic.{◌≢◌, ◌↔◌, ◌⊎◌, inl, inr}
pub use mathlib.Core.Bool.{Bool, true, false, not, ◌&&◌, ◌||◌}
pub use mathlib.Core.Option.{Option, none, some}
pub use mathlib.Core.List.{List, [], ◌∷◌, ◌++◌, map}
pub use native.Mathlib.Omega.{arith}
