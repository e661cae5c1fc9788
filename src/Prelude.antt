-- ===== src/Prelude.antt =====
-- The names that every module shares: the libraries', passed on, and those of the children.
mod Tests
mod Lists
mod Bytes
mod Decimal
pub mod Dict
pub mod Int
pub mod Outcome
pub use Tests.*
pub use Lists.*
unfoldable pub use Lists.{count, filter}
unfoldable pub use Bytes.{text_eq, starts_with, ends_with}
pub use Bytes.{Text, codes, text_eq_iff, text_eq_refl, text_eq_symm, All, All-append, Lacks}
unfoldable pub use Decimal.{show}
pub use Decimal.{show-injective, show-IsDigit, IsDigit}
pub use Prim.Native.Nat.{ℕ, zero, suc, ◌+◌, ◌-◌, ◌*◌, ◌/◌, ◌%◌, ◌^◌, ◌≤◌, ◌<◌}
pub use mathlib.Core.Path.{◌≡◌, refl, sym, ap, ◌∙◌, subst}
pub use mathlib.Core.Logic.{◌≢◌, ◌↔◌, ◌⊎◌, inl, inr}
pub use mathlib.Core.Bool.{Bool, true, false, ◌&&◌, ◌||◌, not}
pub use mathlib.Core.Option.{Option, none, some}
pub use mathlib.Core.List.{List, [], ◌∷◌, ◌++◌, map, append-nil, append_assoc}
pub use native.Mathlib.Omega.{arith}
