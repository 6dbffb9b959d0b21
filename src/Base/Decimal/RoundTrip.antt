-- ===== src/Base/Decimal/RoundTrip.antt =====
-- Reading a printed number gives the number back.
use Prim.Native.Nat.{ℕ, zero, suc, ◌+◌, ◌*◌, ◌/◌, ◌%◌, ◌^◌, ◌<◌}
use mathlib.Core.Bool.{true, false}
use mathlib.Core.Path.{◌≡◌, refl, ap, ◌∙◌}
use mathlib.Core.List.{[], ◌∷◌}
use mathlib.Core.Option.{some}
use native.Mathlib.Omega.{arith}
use native.Mathlib.Nat.{pow-succ'}
use mathlib.Core.Logic.{inl, inr}
use mha_go.Base.Tests.{ltb, Bool-cases}
use mha_go.Base.Lists.{is_nil}
use mha_go.Base.Strings.{Text}
use mha_go.Base.Decimal.{digits, print_uint, scan_uint, parse_uint}

scan_uint-digit :
    (d n : ℕ) (s : Text)
    → d < 10
    → n * 10 + d < 2 ^ 64
    → scan_uint ((48 + d) ∷ s) n ≡ scan_uint s (n * 10 + d)
unfolding scan_uint
scan_uint-digit d n s h k = ground arith

pub digits-last :
    (fuel n : ℕ) (out : Text) → ltb n 10 ≡ true → digits (suc fuel) n out ≡ (48 + n) ∷ out
unfolding digits
digits-last fuel n out e = ground arith

pub digits-more :
    (fuel n : ℕ) (out : Text)
    → ltb n 10 ≡ false
    → digits (suc fuel) n out ≡ digits fuel (n / 10) ((48 + n % 10) ∷ out)
unfolding digits
digits-more fuel n out e = ground arith

quotient_fits : (fuel n : ℕ) → n < 10 ^ suc fuel → n / 10 < 10 ^ fuel
quotient_fits fuel n k = let step = pow-succ' 10 fuel in omega (arith, step)

more_fuel : (fuel n : ℕ) → n / 10 < 10 ^ fuel → ltb n 10 ≡ false → 0 < fuel
more_fuel zero n small e = absurd (ground arith)
more_fuel (suc fuel) n small e = omega arith

-- With a digit of fuel for each digit.
scan_uint-digits :
    (fuel n : ℕ) (out : Text)
    → n < 2 ^ 64
    → n < 10 ^ fuel
    → 0 < fuel
    → scan_uint (digits fuel n out) 0 ≡ scan_uint out n
scan_uint-digits zero n out h k p = absurd (omega arith)
scan_uint-digits (suc fuel) n out h k p = elim (Bool-cases (ltb n 10)) [
  | inl e ↦
      ap (λ s. scan_uint s 0) (digits-last fuel n out e)
      ∙ (scan_uint-digit n 0 out (ground arith) (ground arith) ∙ ap (scan_uint out) (omega arith))
  | inr e ↦
      let small : n / 10 < 10 ^ fuel = quotient_fits fuel n k in
      ap (λ s. scan_uint s 0) (digits-more fuel n out e)
      ∙ (scan_uint-digits fuel (n / 10) ((48 + n % 10) ∷ out) (omega arith) small
            (more_fuel fuel n small (ground arith))
          ∙ (scan_uint-digit (n % 10) (n / 10) out (omega arith) (omega arith)
              ∙ ap (scan_uint out) (omega arith)))
]

is_nil-digits : (fuel n c : ℕ) (out : Text) → is_nil (digits fuel n (c ∷ out)) ≡ false
is_nil-digits zero n c out = unfold digits in refl
is_nil-digits (suc fuel) n c out = elim (Bool-cases (ltb n 10)) [
  | inl e ↦ ap is_nil (digits-last fuel n (c ∷ out) e)
  | inr e ↦
      ap is_nil (digits-more fuel n (c ∷ out) e)
      ∙ is_nil-digits fuel (n / 10) (48 + n % 10) (c ∷ out)
]

pub is_nil-print_uint : (n : ℕ) → is_nil (print_uint n) ≡ false
unfolding print_uint
is_nil-print_uint n = elim (Bool-cases (ltb n 10)) [
  | inl e ↦ ap is_nil (digits-last 19 n [] e)
  | inr e ↦ ap is_nil (digits-more 19 n [] e) ∙ is_nil-digits 19 (n / 10) (48 + n % 10) []
]

parse_uint-scan_uint : (s : Text) → is_nil s ≡ false → parse_uint s ≡ scan_uint s 0
unfolding parse_uint
parse_uint-scan_uint [] h = cc
parse_uint-scan_uint (c ∷ s) h = refl

-- What `strconv.ParseUint` reads from what `strconv.FormatUint` prints of a uint64 is that number.
pub parse_uint-print_uint : (n : ℕ) → n < 2 ^ 64 → parse_uint (print_uint n) ≡ some n
parse_uint-print_uint n h =
    parse_uint-scan_uint (print_uint n) (is_nil-print_uint n)
    ∙ (unfold print_uint in
        scan_uint-digits 20 n [] h (omega arith) (omega arith) ∙ (unfold scan_uint in refl))
