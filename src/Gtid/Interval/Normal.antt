-- ===== src/Gtid/Interval/Normal.antt =====
-- The normal form that `normalizeIntervals` of internal/replication/gtidset.go reaches: sorted
-- intervals with a gap between any two.
use mha_go.Base.{
  ℕ, ◌+◌, ◌^◌, ◌≤◌, ◌<◌, false, List, [], ◌∷◌, leb, ◌≡◌, refl, arith, All, Bool-cases, inl, inr, ap,
  subst,
}
use mha_go.Gtid.Interval.{Interval, sort, insert, less, merge, merge_all, normalize, add64}
use mha_go.Gtid.Interval.Cover.{
  StartsFrom, sort-StartsFrom, extend, extend-start, StartsFrom-weaken, merge-extend, merge-append,
}

-- Every interval is nonempty, starts at `lo` or later, and leaves a number free before the next.
abbrev pub Gapped : ℕ → List Interval → Type 0
Gapped lo [] = Unit
Gapped lo (i ∷ l) = (lo ≤ i.start) × (i.start ≤ i.end) × Gapped (i.end + 2) l

-- A nonempty interval whose successor is still a uint64.
pub record IsBounded (i : Interval) : Type 0 where
  pub ordered : i.start ≤ i.end
  pub below_max : i.end + 1 < 2 ^ 64

pub Gapped-weaken : (lo hi : ℕ) (l : List Interval) → lo ≤ hi → Gapped hi l → Gapped lo l
Gapped-weaken lo hi [] h g = tt
Gapped-weaken lo hi (i ∷ l) h g = (omega arith, g.1, g.2)

insert-IsBounded :
    (i : Interval) (l : List Interval) → IsBounded i → All IsBounded l → All IsBounded (insert i l)
unfolding insert
insert-IsBounded i [] v vs = (v, tt)
insert-IsBounded i (j ∷ l) v vs = elim (Bool-cases (less j i)) [
  | inl e ↦ rw e (vs.0, insert-IsBounded i l v vs.1)
  | inr e ↦ rw e (v, vs)
]

sort-IsBounded : (l : List Interval) → All IsBounded l → All IsBounded (sort l)
unfolding sort
sort-IsBounded [] v = tt
sort-IsBounded (i ∷ l) v = insert-IsBounded i (sort l) v.0 (sort-IsBounded l v.1)

extend-IsBounded :
    (last i : Interval)
    → IsBounded last
    → IsBounded i
    → last.start ≤ i.start
    → IsBounded (extend last i)
extend-IsBounded last i v w h = ground arith

past_gap :
    (last i : Interval)
    → IsBounded last
    → leb i.start (add64 last.end 1) ≡ false
    → last.end + 2 ≤ i.start
past_gap last i v e = ground arith

merge-Gapped :
    (last : Interval) (l : List Interval)
    → StartsFrom last.start l
    → IsBounded last
    → All IsBounded l
    → Gapped last.start (merge last l)
merge-Gapped last [] s v vs = unfold merge in (omega arith, v.ordered, tt)
merge-Gapped last (i ∷ l) s v vs = elim (Bool-cases (leb i.start (add64 last.end 1))) [
  | inl e ↦ rw (merge-extend last i l e) (
      subst (λ (lo : ℕ). Gapped lo (merge (extend last i) l)) (extend-start last i)
        (merge-Gapped (extend last i) l
          (rw (extend-start last i) (StartsFrom-weaken last.start i.start l s.0 s.1))
          (extend-IsBounded last i v vs.0 s.0) vs.1))
  | inr e ↦ rw (merge-append last i l e) (
    omega arith,
    v.ordered,
    Gapped-weaken (last.end + 2) i.start (merge i l) (past_gap last i v e)
        (merge-Gapped i l s.1 vs.0 vs.1),
  )
]

merge_all-Gapped : (l : List Interval) → StartsFrom 0 l → All IsBounded l → Gapped 0 (merge_all l)
merge_all-Gapped [] s v = tt
merge_all-Gapped (i ∷ l) s v =
    Gapped-weaken 0 i.start (merge i l) (omega arith) (merge-Gapped i l s.1 v.0 v.1)

-- The normal form of intervals of numbers below 2^64 - 1 is sorted, with a gap between neighbours.
pub normalize-Gapped : (l : List Interval) → All IsBounded l → Gapped 0 (normalize l)
unfolding normalize
normalize-Gapped l v = merge_all-Gapped (sort l) (sort-StartsFrom l) (sort-IsBounded l v)

insert_first :
    (i : Interval) (l : List Interval) → Gapped (i.end + 2) l → i.start ≤ i.end → insert i l ≡ i ∷ l
unfolding insert
insert_first i [] g h = refl
insert_first i (j ∷ l) g h = ground arith

sort_sorted : (lo : ℕ) (l : List Interval) → Gapped lo l → sort l ≡ l
unfolding sort
sort_sorted lo [] g = refl
sort_sorted lo (i ∷ l) g = rw (sort_sorted (i.end + 2) l g.2) (insert_first i l g.2 g.1)

gap-leb : (i j : Interval) → IsBounded i → i.end + 2 ≤ j.start → leb j.start (add64 i.end 1) ≡ false
gap-leb i j v h = ground arith

merge_normal :
    (i : Interval) (l : List Interval)
    → IsBounded i
    → All IsBounded l
    → Gapped (i.end + 2) l
    → merge i l ≡ i ∷ l
merge_normal i [] v vs g = unfold merge in refl
merge_normal i (j ∷ l) v vs g =
    rw (merge-append i j l (gap-leb i j v g.0)) (ap (◌∷◌ i) (merge_normal j l vs.0 vs.1 g.2))

-- A list in normal form is left as it is.
pub normalize_normal :
    (lo : ℕ) (l : List Interval) → All IsBounded l → Gapped lo l → normalize l ≡ l
unfolding normalize
normalize_normal lo [] v g = unfold sort in refl
normalize_normal lo (i ∷ l) v g = rw (sort_sorted lo (i ∷ l) g) (merge_normal i l v.0 v.1 g.2)
