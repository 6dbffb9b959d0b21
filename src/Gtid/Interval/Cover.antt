-- ===== src/Gtid/Interval/Cover.antt =====
-- Which transaction numbers a list of intervals covers, before and after each operation of
-- internal/replication/gtidset.go.
use mha_go.Base.{
  All-append, ℕ, ◌^◌, ◌≤◌, ◌<◌, Bool, true, false, not, ◌&&◌, ◌||◌, List, [], ◌∷◌, ◌++◌, ltb, leb,
  ◌≡◌, refl, arith, All, if◌then◌else◌, Bool-cases, inl, inr, ◌∙◌,
}
use mha_go.Gtid.Interval.{
  Interval, sort, insert, merge, normalize, cut, subtract_interval, subtract_all, less, add64,
  merge_all,
}

-- What `parseInterval` guarantees: a nonempty interval of uint64 numbers.
pub record IsValid (i : Interval) : Type 0 where
  pub ordered : i.start ≤ i.end
  pub fits_u64 : i.end < 2 ^ 64

abbrev pub within : ℕ → Interval → Bool
within n i = leb i.start n && leb n i.end

unfoldable pub covers : ℕ → List Interval → Bool
covers n [] = false
covers n (i ∷ l) = within n i || covers n l

pub covers-append : (n : ℕ) (l m : List Interval) → covers n (l ++ m) ≡ (covers n l || covers n m)
unfolding covers
covers-append n [] m = refl
covers-append n (i ∷ l) m = ground (arith, covers-append n l m)

covers-insert :
    (n : ℕ) (i : Interval) (l : List Interval) → covers n (insert i l) ≡ (within n i || covers n l)
unfolding insert covers
covers-insert n i [] = refl
covers-insert n i (j ∷ l) = ground (arith, covers-insert n i l)

pub covers-sort : (n : ℕ) (l : List Interval) → covers n (sort l) ≡ covers n l
unfolding sort covers
covers-sort n [] = refl
covers-sort n (i ∷ l) = ground (arith, covers-insert n i (sort l), covers-sort n l)

-- Sorted by start, every start at least `lo`.
abbrev pub StartsFrom : ℕ → List Interval → Type 0
StartsFrom lo [] = Unit
StartsFrom lo (i ∷ l) = (lo ≤ i.start) × StartsFrom i.start l

pub insert-StartsFrom :
    (lo : ℕ) (i : Interval) (l : List Interval)
    → lo ≤ i.start
    → StartsFrom lo l
    → StartsFrom lo (insert i l)
unfolding insert
insert-StartsFrom lo i [] h s = (h, tt)
insert-StartsFrom lo i (j ∷ l) h s = elim (Bool-cases (less j i)) [
  | inl e ↦ rw e (s.0, insert-StartsFrom j.start i l (ground arith) s.1)
  | inr e ↦ rw e (h, (ground arith, s.1))
]

pub sort-StartsFrom : (l : List Interval) → StartsFrom 0 (sort l)
unfolding sort
sort-StartsFrom [] = tt
sort-StartsFrom (i ∷ l) = insert-StartsFrom 0 i (sort l) (omega arith) (sort-StartsFrom l)

insert-All :
    (i : Interval) (l : List Interval) → IsValid i → All IsValid l → All IsValid (insert i l)
unfolding insert
insert-All i [] v vs = (v, tt)
insert-All i (j ∷ l) v vs = elim (Bool-cases (less j i)) [
  | inl e ↦ rw e (vs.0, insert-All i l v vs.1)
  | inr e ↦ rw e (v, vs)
]

pub sort-All : (l : List Interval) → All IsValid l → All IsValid (sort l)
unfolding sort
sort-All [] v = tt
sort-All (i ∷ l) v = insert-All i (sort l) v.0 (sort-All l v.1)

-- The interval that `merge` keeps when `i` touches `last`.
abbrev pub extend : Interval → Interval → Interval
extend last i = if ltb last.end i.end then record last { end = i.end } else last

pub merge-extend :
    (last i : Interval) (l : List Interval)
    → leb i.start (add64 last.end 1) ≡ true
    → merge last (i ∷ l) ≡ merge (extend last i) l
unfolding merge
merge-extend last i l e = rw (e, merge)

pub merge-append :
    (last i : Interval) (l : List Interval)
    → leb i.start (add64 last.end 1) ≡ false
    → merge last (i ∷ l) ≡ last ∷ merge i l
unfolding merge
merge-append last i l e = rw (e, merge)

extend-IsValid :
    (last i : Interval) → IsValid last → IsValid i → last.start ≤ i.start → IsValid (extend last i)
extend-IsValid last i v w h = ground arith

-- Merging two intervals that touch covers what both cover, even where `last.end + 1` wraps.
within-extend :
    (n : ℕ) (last i : Interval)
    → IsValid last
    → IsValid i
    → last.start ≤ i.start
    → leb i.start (add64 last.end 1) ≡ true
    → within n (extend last i) ≡ (within n last || within n i)
within-extend n last i v w h e = ground arith

pub StartsFrom-weaken :
    (lo hi : ℕ) (l : List Interval) → lo ≤ hi → StartsFrom hi l → StartsFrom lo l
StartsFrom-weaken lo hi [] h s = tt
StartsFrom-weaken lo hi (i ∷ l) h s = (omega arith, s.1)

pub extend-start : (last i : Interval) → (extend last i).start ≡ last.start
extend-start last i = ground arith

covers-merge :
    (n : ℕ) (last : Interval) (l : List Interval)
    → StartsFrom last.start l
    → IsValid last
    → All IsValid l
    → covers n (merge last l) ≡ (within n last || covers n l)
unfolding covers
covers-merge n last [] s v vs = unfold merge in refl
covers-merge n last (i ∷ l) s v vs = elim (Bool-cases (leb i.start (add64 last.end 1))) [
  | inl e ↦ rw (merge-extend last i l e) (
      covers-merge n (extend last i) l
        (rw (extend-start last i) (StartsFrom-weaken last.start i.start l s.0 s.1))
        (extend-IsValid last i v vs.0 s.0) vs.1
      ∙ ground (arith, within-extend n last i v vs.0 s.0 e))
  | inr e ↦ rw (merge-append last i l e, covers-merge n i l s.1 vs.0 vs.1)
]

covers-merge_all :
    (n : ℕ) (l : List Interval)
    → StartsFrom 0 l
    → All IsValid l
    → covers n (merge_all l) ≡ covers n l
unfolding covers
covers-merge_all n [] s v = refl
covers-merge_all n (i ∷ l) s v = covers-merge n i l s.1 v.0 v.1

-- Normalizing intervals of uint64 numbers changes no member of the set.
pub covers-normalize :
    (n : ℕ) (l : List Interval) → All IsValid l → covers n (normalize l) ≡ covers n l
unfolding normalize
covers-normalize n l v =
    covers-merge_all n (sort l) (sort-StartsFrom l) (sort-All l v) ∙ covers-sort n l

covers-cut :
    (n : ℕ) (r i : Interval)
    → IsValid r
    → IsValid i
    → covers n (cut r i) ≡ (within n i && not (within n r))
unfolding cut covers
covers-cut n r i v w = ground arith

-- Subtracting an interval leaves exactly the numbers outside it.
pub covers-subtract_interval :
    (n : ℕ) (l : List Interval) (r : Interval)
    → All IsValid l
    → IsValid r
    → covers n (subtract_interval l r) ≡ (covers n l && not (within n r))
unfolding subtract_interval covers
covers-subtract_interval n [] r vs v = refl
covers-subtract_interval n (i ∷ l) r vs v =
    covers-append n (cut r i) (subtract_interval l r)
    ∙ ground (arith, covers-cut n r i v vs.0, covers-subtract_interval n l r vs.1 v)

cut-IsValid : (r i : Interval) → IsValid r → IsValid i → All IsValid (cut r i)
unfolding cut
cut-IsValid r i v w = ground arith

pub subtract_interval-IsValid :
    (l : List Interval) (r : Interval)
    → All IsValid l
    → IsValid r
    → All IsValid (subtract_interval l r)
unfolding subtract_interval
subtract_interval-IsValid [] r vs v = tt
subtract_interval-IsValid (i ∷ l) r vs v =
    All-append IsValid (cut r i) (subtract_interval l r) (cut-IsValid r i v vs.0)
      (subtract_interval-IsValid l r vs.1 v)

-- Subtracting a list of intervals leaves exactly the numbers that it does not cover.
pub covers-subtract_all :
    (n : ℕ) (l remove : List Interval)
    → All IsValid l
    → All IsValid remove
    → covers n (subtract_all l remove) ≡ (covers n l && not (covers n remove))
unfolding subtract_all
covers-subtract_all n l [] vs ws = unfold covers in ground arith
covers-subtract_all n [] (r ∷ remove) vs ws = unfold covers in refl
covers-subtract_all n (i ∷ l) (r ∷ remove) vs ws =
    covers-subtract_all n (subtract_interval (i ∷ l) r) remove
      (subtract_interval-IsValid (i ∷ l) r vs ws.0) ws.1
    ∙ (unfold covers in ground (arith, covers-subtract_interval n (i ∷ l) r vs ws.0))

pub subtract_all-IsValid :
    (l remove : List Interval)
    → All IsValid l
    → All IsValid remove
    → All IsValid (subtract_all l remove)
unfolding subtract_all
subtract_all-IsValid l [] v w = v
subtract_all-IsValid [] (r ∷ remove) v w = tt
subtract_all-IsValid (i ∷ l) (r ∷ remove) v w =
    subtract_all-IsValid (subtract_interval (i ∷ l) r) remove
      (subtract_interval-IsValid (i ∷ l) r v w.0) w.1

merge-IsValid :
    (last : Interval) (l : List Interval)
    → StartsFrom last.start l
    → IsValid last
    → All IsValid l
    → All IsValid (merge last l)
merge-IsValid last [] s v vs = unfold merge in (v, tt)
merge-IsValid last (i ∷ l) s v vs = elim (Bool-cases (leb i.start (add64 last.end 1))) [
  | inl e ↦ rw (merge-extend last i l e) (
      merge-IsValid (extend last i) l
        (rw (extend-start last i) (StartsFrom-weaken last.start i.start l s.0 s.1))
        (extend-IsValid last i v vs.0 s.0) vs.1)
  | inr e ↦ rw (merge-append last i l e) (v, merge-IsValid i l s.1 vs.0 vs.1)
]

merge_all-IsValid : (l : List Interval) → StartsFrom 0 l → All IsValid l → All IsValid (merge_all l)
merge_all-IsValid [] s v = tt
merge_all-IsValid (i ∷ l) s v = merge-IsValid i l s.1 v.0 v.1

pub normalize-IsValid : (l : List Interval) → All IsValid l → All IsValid (normalize l)
unfolding normalize
normalize-IsValid l v = merge_all-IsValid (sort l) (sort-StartsFrom l) (sort-All l v)
