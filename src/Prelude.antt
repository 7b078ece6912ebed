-- ===== src/Prelude.antt =====
-- The names that the other modules share.
mod Tests
mod Int
mod Errors
mod Lists
mod Equality
pub mod Transactions
pub mod Assoc
pub mod Sort
pub mod Strings
pub mod Json
pub use Tests.*
pub use Int.{
  Num, int, non_integer, signed, sum_ℤ, ℤ, pos, negsuc, pos_part, neg_part, sub_ℕ, ◌≤ℤ◌, ◌<ℤ◌,
  ltb_ℤ, leb_ℤ, eqb_ℤ, neg_of, neg_ℤ, abs_ℤ, +ℤ_parts, -ℤ_parts, eq_of_parts, int_laws, +ℤ_comm,
  +ℤ_assoc, +ℤ_cancel, abs-add-le,
}
unfoldable pub use Int.{◌+ℤ◌, ◌-ℤ◌, ◌*ℤ◌, quot_ℤ, rem_ℤ}
pub use Errors.*
pub use Lists.*
pub use Equality.{
  Eq, ◌===◌, Text, codes, text_eq, text_beq_sound, text_beq_refl, text_beq_iff, text_beq-false,
  text_ltb_irrefl, text_ltb_trans, text_ltb-total,
}
unfoldable pub use Equality.{text_beq, text_ltb}
pub use Prim.Native.Nat.{ℕ, zero, suc, ◌+◌, ◌-◌, ◌*◌, ◌/◌, ◌%◌, ◌^◌, ◌≤◌, ◌<◌}
pub use mathlib.Core.Path.{◌≡◌, refl, sym, ap, ◌∙◌}
pub use mathlib.Core.Logic.{◌≢◌, ◌↔◌, ◌⊎◌, inl, inr}
pub use mathlib.Core.Bool.{Bool, true, false, not, ◌&&◌, ◌||◌}
pub use mathlib.Core.Option.{Option, none, some}
pub use mathlib.Core.List.{List, [], ◌∷◌, ◌++◌, map}
pub use native.Mathlib.Omega.{arith}
