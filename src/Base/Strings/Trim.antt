-- ===== src/Base/Strings/Trim.antt =====
-- `strings.TrimSpace`, applied twice or compared with "".
use Prim.Native.Nat.{ℕ}
use mathlib.Core.Path.{◌≡◌, refl, ap, ◌∙◌}
use mathlib.Core.Bool.{Bool, true, false, ◌&&◌}
use mathlib.Core.Logic.{inl, inr}
use mathlib.Core.List.{[], ◌∷◌, ◌++◌}
use native.Mathlib.Omega.{arith}
use mha_go.Base.Tests.{Bool-cases}
use mha_go.Base.Lists.{is_nil}
use mha_go.Base.Strings.{
  Text, is_space, before_trimmed, trim_left, trim_right, trim_space, is_blank,
}

unfoldable all_spaces : Text → Bool
all_spaces [] = true
all_spaces (c ∷ s) = is_space c && all_spaces s

all_spaces-append : (s t : Text) → all_spaces (s ++ t) ≡ (all_spaces s && all_spaces t)
unfolding all_spaces
all_spaces-append [] t = refl
all_spaces-append (c ∷ s) t = ground (arith, all_spaces-append s t)

before_trimmed-nonspace : (c : ℕ) (s : Text) → is_space c ≡ false → before_trimmed c s ≡ c ∷ s
before_trimmed-nonspace c [] e = unfold before_trimmed in rw e refl
before_trimmed-nonspace c (d ∷ r) e = unfold before_trimmed in refl

is_nil-before_trimmed : (c : ℕ) (s : Text) → is_nil (before_trimmed c s) ≡ (is_space c && is_nil s)
is_nil-before_trimmed c [] = unfold before_trimmed in ground arith
is_nil-before_trimmed c (d ∷ r) = unfold before_trimmed in ground arith

trim_right-before_trimmed :
    (c : ℕ) (s : Text) → trim_right s ≡ s → trim_right (before_trimmed c s) ≡ before_trimmed c s
trim_right-before_trimmed c [] e =
    unfold before_trimmed trim_right in
    elim (Bool-cases (is_space c)) [ inl h ↦ rw h refl | inr h ↦ rw h (rw h refl) ]
trim_right-before_trimmed c (d ∷ r) e = unfold before_trimmed trim_right in ap (before_trimmed c) e

is_nil-trim_right : (s : Text) → is_nil (trim_right s) ≡ all_spaces s
unfolding trim_right all_spaces
is_nil-trim_right [] = refl
is_nil-trim_right (c ∷ s) =
    is_nil-before_trimmed c (trim_right s) ∙ ap (λ b. is_space c && b) (is_nil-trim_right s)

is_blank-all_spaces : (s : Text) → is_blank s ≡ all_spaces s
unfolding is_blank trim_space trim_left all_spaces
is_blank-all_spaces [] = refl
is_blank-all_spaces (c ∷ s) = elim (Bool-cases (is_space c)) [
  | inl e ↦ rw e (is_blank-all_spaces s)
  | inr e ↦ rw e (is_nil-trim_right (c ∷ s) ∙ rw e refl)
]

pub nonspace-not_blank : (c : ℕ) (s : Text) → is_space c ≡ false → is_blank (c ∷ s) ≡ false
unfolding all_spaces
nonspace-not_blank c s e = is_blank-all_spaces (c ∷ s) ∙ rw e refl

pub is_blank-append : (s t : Text) → is_blank (s ++ t) ≡ (is_blank s && is_blank t)
is_blank-append s t =
    rw (is_blank-all_spaces (s ++ t))
      (rw (is_blank-all_spaces s) (rw (is_blank-all_spaces t) (all_spaces-append s t)))

trim_right-trim_right : (s : Text) → trim_right (trim_right s) ≡ trim_right s
unfolding trim_right
trim_right-trim_right [] = refl
trim_right-trim_right (c ∷ s) = trim_right-before_trimmed c (trim_right s) (trim_right-trim_right s)

pub trim_space-trim_space : (s : Text) → trim_space (trim_space s) ≡ trim_space s
unfolding trim_space trim_left
trim_space-trim_space [] = unfold trim_right in refl
trim_space-trim_space (c ∷ s) = elim (Bool-cases (is_space c)) [
  | inl e ↦ rw e (trim_space-trim_space s)
  | inr e ↦ rw e (
      rw (before_trimmed-nonspace c (trim_right s) e)
        (rw e (rw (trim_right-trim_right s) (before_trimmed-nonspace c (trim_right s) e))))
]
