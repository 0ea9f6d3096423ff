-- ===== src/Prelude.antt =====
-- The names that the other modules share: the libraries', passed on, and those of the children.
mod Tests
mod Lists
mod Text
mod Calls
pub mod Apart
pub mod Sole
pub mod Keeps
pub mod Returns
mod Int
pub use Tests.*
pub use Lists.*
pub use Text.{str_eq, is_empty, str_len, is_space, or_text, str_append, partition, take_text}
unfoldable pub use Text.{strip}
pub use Calls.*
pub use Text.Chars.*
pub use Text.Split.{
  split_by, is_piece, split_by-pieces, split_by-all_chars, split_by-piece, split_by-append,
}
unfoldable pub use Int.Decimal.{decimal, is_digit}
pub use Int.Decimal.{decimal-digits, decimal-IsSolid, decimal-is_empty, python_int-decimal}
pub use Text.Strip.{strip-strip}
pub use Int.{ℤ, pos, negsuc, neg, pos_part, neg_part, nat_leb}
unfoldable pub use Int.{python_int, digit_value}
pub use Prim.Native.Nat.{ℕ, zero, suc, ◌+◌, ◌-◌, ◌*◌, ◌/◌, ◌%◌, ◌≤◌, ◌<◌, min, max}
pub use Prim.Native.String.{String}
pub use mathlib.Core.Path.{◌≡◌, refl, sym, ap, ◌∙◌, subst}
pub use mathlib.Core.Logic.{◌≢◌, ◌↔◌, ◌⊎◌, inl, inr}
pub use mathlib.Core.Bool.{Bool, true, false, not, ◌&&◌, ◌||◌}
pub use mathlib.Core.Option.{Option, none, some}
pub use mathlib.Core.List.{List, [], ◌∷◌, ◌++◌, map}
pub use native.Mathlib.Omega.{arith}
pub use text.Mathlib.TextEquality.{eq_iff}
