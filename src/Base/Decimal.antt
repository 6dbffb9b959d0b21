-- ===== src/Base/Decimal.antt =====
-- `strconv.FormatUint`, `strconv.Itoa` and `strconv.ParseUint` in base 10, and `%t`.
pub mod RoundTrip
use Prim.Native.Nat.{ℕ, zero, suc, ◌+◌, ◌-◌, ◌*◌, ◌/◌, ◌%◌, ◌^◌}
use mathlib.Core.Bool.{Bool, true, false, ◌&&◌}
use mathlib.Core.List.{[], ◌∷◌}
use mathlib.Core.Option.{Option, none, some}
use mha_go.Base.Tests.{ltb, leb, ◌==◌, if◌then◌else◌}
use mha_go.Base.Strings.{Text, codes}
use mha_go.Base.Int.{ℤ, pos, negsuc}

-- The digits of `n` before `out`; a number below 2^64 has at most twenty.
unfoldable pub digits : ℕ → ℕ → Text → Text
digits zero n out = out
digits (suc fuel) n out = elim (ltb n 10) [
  | true ↦ (48 + n) ∷ out
  | false ↦ digits fuel (n / 10) ((48 + n % 10) ∷ out)
]

unfoldable pub print_uint : ℕ → Text
unfolding digits
print_uint n = digits 20 n []

unfoldable pub print_int : ℤ → Text
unfolding print_uint
print_int (pos n) = print_uint n
print_int (negsuc n) = 45 ∷ print_uint (suc n)

pub print_bool : Bool → Text
print_bool true = codes "true"
print_bool false = codes "false"

abbrev pub is_digit : ℕ → Bool
is_digit c = leb 48 c && leb c 57

-- The loop of `ParseUint`: it fails on a character that is no digit and on overflow.
unfoldable pub scan_uint : Text → ℕ → Option ℕ
scan_uint [] n = some n
scan_uint (c ∷ s) n =
    let m = n * 10 + (c - 48) in
    if is_digit c then (if ltb m (2 ^ 64) then scan_uint s m else none) else none

unfoldable pub parse_uint : Text → Option ℕ
unfolding scan_uint
parse_uint [] = none
parse_uint (c ∷ s) = scan_uint (c ∷ s) 0

abbrev pub below : ℕ → Option ℕ → Option ℕ
below limit none = none
below limit (some n) = if ltb n limit then some n else none

abbrev pub positive : Option ℕ → Option ℤ
positive none = none
positive (some n) = some (pos n)

abbrev pub negative : Option ℕ → Option ℤ
negative none = none
negative (some zero) = some (pos 0)
negative (some (suc n)) = some (negsuc n)

-- `strconv.Atoi` on 64 bits: a sign is allowed in front of the digits.
unfoldable pub parse_int : Text → Option ℤ
unfolding parse_uint
parse_int [] = none
parse_int (c ∷ s) =
    if c == 45
    then negative (below (2 ^ 63 + 1) (parse_uint s))
    else if c == 43
    then positive (below (2 ^ 63) (parse_uint s))
    else positive (below (2 ^ 63) (parse_uint (c ∷ s)))
