-- ===== src/Gtid/Sets/Laws.antt =====
-- `Contains` and `Subtract` of internal/replication/gtidset.go as inclusion and difference of sets
-- of transactions.
use mha_go.Base.{
  ℕ, Bool, true, false, not, ◌&&◌, Text, text_eq, text_eq_iff, text_eq_sound, text_eq_refl, List,
  [], ◌∷◌, ◌≡◌, ◌↔◌, refl, sym, subst, ◌∙◌, arith, All, Bool-cases, inl, inr, if◌then◌else◌,
}
use mha_go.Gtid.Interval
use mha_go.Gtid.Interval.{Interval, normalize, subtract_all}
use mha_go.Gtid.Interval.Cover.{
  IsValid, covers, covers-normalize, covers-subtract_all, normalize-IsValid,
}
use mha_go.Gtid.Interval.Normal.{IsBounded, normalize-Gapped}
use mha_go.Gtid.Interval.Contains.{Includes, contains_iff}
use mha_go.Gtid.Sets.{GtidSet, intervals, contains, subtract, remaining}

-- No entry has the source id.
unfoldable pub absent : Text → GtidSet → Bool
absent sid [] = true
absent sid ((k, l) ∷ s) = not (text_eq k sid) && absent sid s

-- One entry for each source id, with intervals that satisfy `P`.
abbrev pub IsSetOf : (Interval → Type 0) → GtidSet → Type 0
IsSetOf P [] = Unit
IsSetOf P ((k, l) ∷ s) = All P l × (absent k s ≡ true) × IsSetOf P s

pub covers_nil : (n : ℕ) → covers n [] ≡ false
unfolding covers
covers_nil n = refl

-- Whether transaction `n` of source `sid` is in the set.
unfoldable pub member : GtidSet → Text → ℕ → Bool
unfolding intervals
member s sid n = covers n (intervals sid s)

module _ (P : Interval → Type 0) where
  pub All-intervals : (sid : Text) (s : GtidSet) → IsSetOf P s → All P (intervals sid s)
  unfolding intervals
  All-intervals sid [] v = tt
  All-intervals sid ((k, l) ∷ s) v = elim (Bool-cases (text_eq k sid)) [
    | inl e ↦ rw e v.0
    | inr e ↦ rw e (All-intervals sid s v.2)
  ]

intervals-absent : (sid : Text) (s : GtidSet) → absent sid s ≡ true → intervals sid s ≡ []
unfolding intervals absent
intervals-absent sid [] h = refl
intervals-absent sid ((k, l) ∷ s) h = ground (arith, intervals-absent sid s)

pub absent-subtract :
    (sid : Text) (s other : GtidSet) → absent sid s ≡ true → absent sid (subtract s other) ≡ true
unfolding absent subtract
absent-subtract sid [] other h = refl
absent-subtract sid ((k, l) ∷ s) other h = ground (arith, absent-subtract sid s other)

intervals-subtract :
    (sid k : Text) (l : List Interval) (s other : GtidSet)
    → absent k s ≡ true
    → intervals sid (subtract ((k, l) ∷ s) other)
      ≡ (if text_eq k sid then remaining k l other else intervals sid (subtract s other))
unfolding intervals subtract
intervals-subtract sid k l s other h =
    ground (
      arith,
      text_eq_iff k sid,
      intervals-absent sid (subtract s other),
      absent-subtract k s other h,
    )

covers-remaining :
    (k : Text) (l : List Interval) (other : GtidSet) (n : ℕ)
    → All IsValid l
    → IsSetOf IsValid other
    → covers n (remaining k l other) ≡ (covers n l && not (member other k n))
unfolding remaining member
covers-remaining k l other n v w =
    covers-subtract_all n (normalize l) (normalize (intervals k other)) (normalize-IsValid l v)
      (normalize-IsValid (intervals k other) (All-intervals IsValid k other w))
    ∙ cc (
      covers-normalize n l v,
      covers-normalize n (intervals k other) (All-intervals IsValid k other w),
    )

-- On sets with one entry for each source id and intervals of uint64 numbers, the difference holds
-- exactly the transactions of the first set that the second lacks.
pub member-subtract :
    (s other : GtidSet) (sid : Text) (n : ℕ)
    → IsSetOf IsValid s
    → IsSetOf IsValid other
    → member (subtract s other) sid n ≡ (member s sid n && not (member other sid n))
unfolding member
member-subtract [] other sid n v w = unfold subtract intervals covers in refl
member-subtract ((k, l) ∷ s) other sid n v w =
    unfold intervals in
    ground (
      arith,
      intervals-subtract sid k l s other v.1,
      covers-remaining k l other n v.0 w,
      text_eq_iff k sid,
      member-subtract s other sid n v.2 w,
    )

member-tail :
    (k sid : Text) (l : List Interval) (s : GtidSet) (n : ℕ)
    → absent k s ≡ true
    → member s sid n ≡ true
    → member ((k, l) ∷ s) sid n ≡ true
unfolding member intervals
member-tail k sid l s n a m =
    ground (arith, text_eq_iff k sid, intervals-absent k s a, covers_nil n)

IsBounded-IsValid : (l : List Interval) → All IsBounded l → All IsValid l
IsBounded-IsValid [] v = tt
IsBounded-IsValid (i ∷ l) v = (omega arith, IsBounded-IsValid l v.1)

contains_one :
    (have want : List Interval)
    → All IsBounded have
    → All IsBounded want
    → (Interval.contains (normalize have) (normalize want) ≡ true) ↔ Includes have want
contains_one have want v w = (
  λ c n h. sym (same have v n) ∙ both.0 c n (same want w n ∙ h),
  λ sub. both.1 (λ n h. same have v n ∙ sub n (sym (same want w n) ∙ h)),
)
  where
    both :
        (Interval.contains (normalize have) (normalize want) ≡ true)
        ↔ Includes (normalize have) (normalize want)
    both =
        contains_iff 0 0 (normalize have) (normalize want) (normalize-Gapped have v)
          (normalize-Gapped want w)

    same : (l : List Interval) → All IsBounded l → (n : ℕ) → covers n (normalize l) ≡ covers n l
    same l b n = covers-normalize n l (IsBounded-IsValid l b)

member-head :
    (k : Text) (l : List Interval) (s : GtidSet) (n : ℕ) → member ((k, l) ∷ s) k n ≡ covers n l
unfolding member intervals
member-head k l s n = ground (arith, text_eq_refl k)

contains-cons :
    (s other : GtidSet) (k : Text) (l : List Interval)
    → (contains s ((k, l) ∷ other) ≡ true) ↔ (
        (Interval.contains (normalize (intervals k s)) (normalize l) ≡ true)
        × (contains s other ≡ true))
unfolding contains
contains-cons s other k l = ground arith

contains_subset :
    (s other : GtidSet)
    → IsSetOf IsBounded s
    → IsSetOf IsBounded other
    → contains s other ≡ true
    → (sid : Text) (n : ℕ) → member other sid n ≡ true
    → member s sid n ≡ true
unfolding member
contains_subset s [] v w c sid n m = absurd (unfold member intervals covers in cc)
contains_subset s ((k, l) ∷ other) v w c sid n m = elim (Bool-cases (text_eq k sid)) [
  | inl e ↦
      subst (λ k'. member s k' n ≡ true) (text_eq_sound k sid e)
        ((contains_one (intervals k s) l (All-intervals IsBounded k s v) w.0).0
          ((contains-cons s other k l).0 c).0 n (unfold intervals in ground arith))
  | inr e ↦
      contains_subset s other v w.2 ((contains-cons s other k l).0 c).1 sid n
        (unfold intervals in ground arith)
]

subset_contains :
    (s other : GtidSet)
    → IsSetOf IsBounded s
    → IsSetOf IsBounded other
    → ((sid : Text) (n : ℕ) → member other sid n ≡ true → member s sid n ≡ true)
    → contains s other ≡ true
subset_contains s [] v w sub = unfold contains in refl
subset_contains s ((k, l) ∷ other) v w sub =
    (contains-cons s other k l).1 (first, subset_contains s other v w.2 rest)
  where
    first : Interval.contains (normalize (intervals k s)) (normalize l) ≡ true
    first =
        (contains_one (intervals k s) l (All-intervals IsBounded k s v) w.0).1
          (λ n h. unfold member in sub k n (member-head k l other n ∙ h))

    rest : (sid : Text) (n : ℕ) → member other sid n ≡ true → member s sid n ≡ true
    rest sid n m = sub sid n (member-tail k sid l other n w.1 m)

-- On sets with one entry for each source id and intervals of numbers below 2^64 - 1, `Contains`
-- holds exactly if each transaction of the second set is in the first.
pub contains_iff_subset :
    (s other : GtidSet)
    → IsSetOf IsBounded s
    → IsSetOf IsBounded other
    → (contains s other ≡ true)
      ↔ ((sid : Text) (n : ℕ) → member other sid n ≡ true → member s sid n ≡ true)
contains_iff_subset s other v w = (contains_subset s other v w, subset_contains s other v w)
