-- ===== src/Base.antt =====
-- The names that the other modules share: the libraries', passed on, and those of the children.
pub mod Tests
pub mod Lists
pub mod Strings
pub mod Int
pub mod Order
pub mod Errors
pub mod Decimal
pub mod Split
pub use Tests.*
pub use Lists.{length, take, get_elem?, is_nil, length-append, All, All-append, In, In-append_left}
pub use Lists.{
  is_nil-append, is_nil-eq, In-cons, In-keep, keep-In, In-append_right, In-append, All-In,
}
unfoldable pub use Lists.{keep, find, any}
pub use Strings.{Text, codes, has_prefix_sound, text_eq_refl, text_eq_sound, text_eq_iff}
unfoldable pub use Strings.{text_eq, text_lt, is_space, trim_left, trim_right, trim_space, is_blank}
unfoldable pub use Strings.{lower, to_lower, has_prefix, replace_char, equal_fold}
pub use Errors.*
unfoldable pub use Decimal.{digits, print_uint, print_int, scan_uint, parse_uint, parse_int}
pub use Decimal.{print_bool, is_digit}
unfoldable pub use Split.{split, cut_at, cut_last, join}
pub use Split.{onto_first, in_front}
unfoldable pub use Order.{insert_text, sort_texts, has_text, add_text}
pub use Int.{ℤ, pos, negsuc, pos_part, neg_part, ◌≤ℤ◌, ltb_ℤ, leb_ℤ, eqb_ℤ, +ℤ_parts, eqb_ℤ_sound}
unfoldable pub use Int.{◌+ℤ◌, ◌-ℤ◌}
pub use Prim.Native.Nat.{ℕ, zero, suc, ◌+◌, ◌-◌, ◌*◌, ◌/◌, ◌%◌, ◌^◌, ◌≤◌, ◌<◌}
pub use mathlib.Core.Path.{◌≡◌, refl, sym, ap, ◌∙◌, subst}
pub use mathlib.Core.Logic.{◌≢◌, ◌↔◌, ◌⊎◌, inl, inr}
pub use mathlib.Core.Bool.{Bool, true, false, not, ◌&&◌, ◌||◌}
pub use mathlib.Core.Option.{Option, none, some}
pub use mathlib.Core.List.{List, [], ◌∷◌, ◌++◌, map, append-nil, append_assoc}
pub use native.Mathlib.Omega.{arith}
