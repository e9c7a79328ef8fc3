-- ===== src/Prelude.antt =====
-- Names shared by the modules of every component: the libraries', passed on, and those of the
-- children (Boolean tests, lists over native numbers, machine words, predicates on lists).
mod Tests
mod Lists
mod Words
mod Preds
mod Slots
mod Windows
mod Strings
pub use Tests.*
pub use Lists.*
pub use Words.*
pub use Preds.*
pub use Slots.*
pub use Windows.*
pub use Strings.{Bytes, str_eq-eq, str_eq_refl, append_cancel}
unfoldable pub use Strings.{str_eq}
pub use Prim.Native.Nat.{ℕ, zero, suc, ◌+◌, ◌-◌, ◌*◌, ◌/◌, ◌%◌, ◌^◌, ◌≤◌, ◌<◌, min, max, bit_and}
pub use mathlib.Core.Path.{◌≡◌, refl, sym, ap, ap₂, ◌∙◌, subst}
pub use mathlib.Core.Logic.{◌≢◌, ◌↔◌, ◌⊎◌, inl, inr}
pub use mathlib.Core.Bool.{Bool, true, false, ◌&&◌, ◌||◌, not}
pub use mathlib.Core.Option.{Option, none, some}
pub use mathlib.Core.List.{List, [], ◌∷◌, ◌++◌, map, append-nil, append_assoc}
pub use native.Mathlib.Omega.{arith}
unfoldable pub use native.Mathlib.Decide.{dec_lt, dec_le, ℕ_discrete}
