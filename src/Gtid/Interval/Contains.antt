-- ===== src/Gtid/Interval/Contains.antt =====
-- `containsIntervals` of internal/replication/gtidset.go decides inclusion.
use mha_go.Base.{
  ℕ, ◌+◌, ◌≤◌, ◌<◌, true, false, List, [], ◌∷◌, ltb, ◌≡◌, ◌↔◌, refl, ◌∙◌, arith, Bool-cases, inl,
  inr,
}
use mha_go.Gtid.Interval.{Interval, skip, contains, fits}
use mha_go.Gtid.Interval.Cover.{covers, within}
use mha_go.Gtid.Interval.Normal.{Gapped, Gapped-weaken}

abbrev pub Includes : List Interval → List Interval → Type 0
Includes have want = (n : ℕ) → covers n want ≡ true → covers n have ≡ true

covers-below : (n lo : ℕ) (l : List Interval) → Gapped lo l → n < lo → covers n l ≡ false
unfolding covers
covers-below n lo [] g h = refl
covers-below n lo (i ∷ l) g h = ground (arith, covers-below n (i.end + 2) l g.2)

skip-Gapped : (s lo : ℕ) (l : List Interval) → Gapped lo l → Gapped lo (skip s l)
unfolding skip
skip-Gapped s lo [] g = tt
skip-Gapped s lo (i ∷ l) g = elim (Bool-cases (ltb i.end s)) [
  | inl e ↦
      rw e (Gapped-weaken lo (i.end + 2) (skip s l) (omega arith) (skip-Gapped s (i.end + 2) l g.2))
  | inr e ↦ rw e g
]

covers-skip : (n s : ℕ) (l : List Interval) → s ≤ n → covers n (skip s l) ≡ covers n l
unfolding skip covers
covers-skip n s [] h = refl
covers-skip n s (i ∷ l) h = ground (arith, covers-skip n s l h)

skip_sub : (n s : ℕ) (l : List Interval) → covers n (skip s l) ≡ true → covers n l ≡ true
unfolding skip covers
skip_sub n s [] h = h
skip_sub n s (i ∷ l) h = ground (arith, skip_sub n s l)

fits_sub :
    (n : ℕ) (t : Interval) (l : List Interval)
    → fits t l ≡ true
    → within n t ≡ true
    → covers n l ≡ true
unfolding covers
fits_sub n t [] f h = cc
fits_sub n t (i ∷ l) f h = ground arith

contains-cons :
    (have want : List Interval) (t : Interval)
    → contains have (t ∷ want) ≡ true
    → (fits t (skip t.start have) ≡ true) × (contains (skip t.start have) want ≡ true)
unfolding contains
contains-cons have want t c = ground arith

pub contains_sound : (have want : List Interval) → contains have want ≡ true → Includes have want
unfolding covers
contains_sound have [] c n h = cc
contains_sound have (t ∷ want) c n h =
    let (f, r) = contains-cons have want t c in
    elim (Bool-cases (within n t)) [
      | inl e ↦ skip_sub n t.start have (fits_sub n t (skip t.start have) f e)
      | inr e ↦ skip_sub n t.start have (contains_sound (skip t.start have) want r n (ground arith))
    ]

-- The first interval of the rest ends at the target's start or later.
skip-head :
    (s lo : ℕ) (have : List Interval)
    → Gapped lo have
    → (i : Interval) (l : List Interval) → skip s have ≡ i ∷ l
    → s ≤ i.end
unfolding skip
skip-head s lo [] g i l e = cc
skip-head s lo (j ∷ have) g i l e = elim (Bool-cases (ltb j.end s)) [
  | inl b ↦ skip-head s (j.end + 2) have g.2 i l (rw b at e)
  | inr b ↦ ground arith
]

fits_complete :
    (lo : ℕ) (t i : Interval) (l : List Interval)
    → Gapped lo (i ∷ l)
    → t.start ≤ t.end
    → t.start ≤ i.end
    → ((n : ℕ) → within n t ≡ true → covers n (i ∷ l) ≡ true)
    → fits t (i ∷ l) ≡ true
unfolding covers
fits_complete lo t i l g v h sub = ground (
  arith,
  sub t.start,
  sub (i.end + 1),
  covers-below t.start (i.end + 2) l g.2,
  covers-below (i.end + 1) (i.end + 2) l g.2,
)

fits_rest :
    (lo : ℕ) (t : Interval) (rest : List Interval)
    → Gapped lo rest
    → t.start ≤ t.end
    → ((i : Interval) (l : List Interval) → rest ≡ i ∷ l → t.start ≤ i.end)
    → ((n : ℕ) → within n t ≡ true → covers n rest ≡ true)
    → fits t rest ≡ true
fits_rest lo t [] g v h sub = unfold covers in ground (arith, sub t.start)
fits_rest lo t (i ∷ l) g v h sub = fits_complete lo t i l g v (h i l refl) sub

contains-intro :
    (have want : List Interval) (t : Interval)
    → fits t (skip t.start have) ≡ true
    → contains (skip t.start have) want ≡ true
    → contains have (t ∷ want) ≡ true
unfolding contains
contains-intro have want t f c = rw (f, c)

covers-sorted : (n s : ℕ) (l : List Interval) → Gapped s l → covers n l ≡ true → s ≤ n
covers-sorted n s l g h = ground (arith, covers-below n s l g)

pub contains_complete :
    (lo hi : ℕ) (have want : List Interval)
    → Gapped lo have
    → Gapped hi want
    → Includes have want
    → contains have want ≡ true
contains_complete lo hi have [] g w sub = unfold contains in refl
contains_complete lo hi have (t ∷ want) g w sub =
    contains-intro have want t
      (fits_rest lo t rest (skip-Gapped t.start lo have g) w.1 (skip-head t.start lo have g)
        (λ n e. covers-skip n t.start have (start_le n e) ∙ sub n (left n e)))
      (contains_complete lo (t.end + 2) rest want (skip-Gapped t.start lo have g) w.2
        (λ n e. covers-skip n t.start have (later n e) ∙ sub n (right n e)))
  where
    rest : List Interval
    rest = skip t.start have

    start_le : (n : ℕ) → within n t ≡ true → t.start ≤ n
    start_le n e = ground arith

    left : (n : ℕ) → within n t ≡ true → covers n (t ∷ want) ≡ true
    left n e = unfold covers in ground arith

    right : (n : ℕ) → covers n want ≡ true → covers n (t ∷ want) ≡ true
    right n e = unfold covers in ground arith

    later : (n : ℕ) → covers n want ≡ true → t.start ≤ n
    later n e = omega (arith, covers-sorted n (t.end + 2) want w.2 e, w.1)

-- On lists in normal form the two-pointer walk decides inclusion, in both directions.
pub contains_iff :
    (lo hi : ℕ) (have want : List Interval)
    → Gapped lo have
    → Gapped hi want
    → (contains have want ≡ true) ↔ Includes have want
contains_iff lo hi have want g w = (contains_sound have want, contains_complete lo hi have want g w)
