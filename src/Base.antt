-- ===== src/Base.antt =====
-- The names that all modules share: the libraries' names passed on, Boolean tests, texts as lists
-- of UTF-16 code units, and JavaScript's insertion-ordered `Set` and `Map`.
mod Tests
mod Lists
mod Errors
pub mod Text
pub mod Set
pub mod Map
pub mod Sort
pub mod Decimal
pub mod Options
pub use Tests.*
pub use Lists.*
pub use Errors.*
pub use Prim.Native.Nat.{ℕ, zero, suc, ◌+◌, ◌-◌, ◌*◌, ◌≤◌, ◌<◌}
pub use Prim.Native.String.{String}
pub use mathlib.Core.Path.{◌≡◌, refl, sym, ap, ◌∙◌}
pub use mathlib.Core.Logic.{◌≢◌, ◌↔◌, ◌⊎◌, inl, inr}
pub use mathlib.Core.Bool.{Bool, true, false, not, ◌&&◌, ◌||◌}
pub use mathlib.Core.Option.{Option, none, some}
pub use mathlib.Core.List.{List, [], ◌∷◌, ◌++◌, map, append_assoc, append-nil}
pub use native.Mathlib.Omega.{arith}
