-- ===== src/Prelude.antt =====
-- The names that the models share: the libraries', passed on, and those of the children.
mod Tests
mod Lists
mod Texts
mod Options
pub mod Int
pub mod Decimal
pub mod Codec
pub use Tests.*
pub use Lists.*
pub use Texts.*
pub use Options.*
unfoldable pub use Tests.{all_below}
unfoldable pub use Texts.{text_eq, starts_with}
pub use Prim.Native.Nat.{ℕ, zero, suc, ◌+◌, ◌-◌, ◌*◌, ◌/◌, ◌%◌, ◌^◌, ◌≤◌, ◌<◌, min, max}
pub use mathlib.Core.Path.{◌≡◌, refl, sym, ap, ap₂, subst, ◌∙◌}
pub use mathlib.Core.Logic.{◌≢◌, ◌↔◌, ◌⊎◌, inl, inr}
pub use mathlib.Core.Bool.{Bool, true, false, not, ◌&&◌, ◌||◌}
pub use mathlib.Core.Option.{Option, none, some}
pub use mathlib.Core.List.{List, [], ◌∷◌, ◌++◌, map, append-nil, append_assoc}
pub use native.Mathlib.Omega.{arith}
