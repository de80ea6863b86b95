-- ===== src/Base.antt =====
-- The names that the modules share: the libraries', passed on, and those of the children. It
-- models no code of its own, but for the C arrays and machine words of Base/Lists and Base/Words.
mod Tests
mod Lists
mod Words
mod Monad
mod Search
pub use Tests.*
pub use Lists.*
pub use Words.*
pub use Monad.*
pub use Search.{IsFirst, search_iff, search_from-set}
unfoldable pub use Search.{search_from}
pub use Prim.Native.Nat.{ℕ, zero, suc, ◌+◌, ◌-◌, ◌*◌, ◌/◌, ◌%◌, ◌^◌, ◌≤◌, ◌<◌, bit_and, bit_or}
pub use mathlib.Core.Path.{◌≡◌, refl, sym, ap, ◌∙◌}
pub use mathlib.Core.Logic.{◌≢◌, ◌↔◌, ◌⊎◌, inl, inr}
pub use mathlib.Core.Bool.{Bool, true, false, ◌&&◌, ◌||◌, not}
pub use mathlib.Core.Option.{Option, none, some}
pub use mathlib.Core.List.{List, [], ◌∷◌, ◌++◌}
pub use native.Mathlib.Omega.{arith}
