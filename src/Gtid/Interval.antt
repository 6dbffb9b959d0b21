-- ===== src/Gtid/Interval.antt =====
-- Intervals of internal/replication/gtidset.go: sorting and merging, containment, subtraction.
-- Bounds are uint64, so `+ 1` and `- 1` wrap.
pub mod Cover
pub mod Normal
pub mod Contains
use mha_go.Base.{
  ℕ, ◌+◌, ◌-◌, ◌%◌, ◌^◌, Bool, true, false, ◌&&◌, ◌||◌, List, [], ◌∷◌, ◌++◌, ltb, leb, ◌==◌,
  if◌then◌else◌,
}

pub record Interval : Type 0 where
  pub start : ℕ
  pub end : ℕ

abbrev pub add64 : ℕ → ℕ → ℕ
add64 a b = (a + b) % 2 ^ 64

abbrev pub sub64 : ℕ → ℕ → ℕ
sub64 a b = (a + 2 ^ 64 - b) % 2 ^ 64

-- The `less` function of the sort.
abbrev pub less : Interval → Interval → Bool
less a b = if a.start == b.start then ltb a.end b.end else ltb a.start b.start

unfoldable pub insert : Interval → List Interval → List Interval
insert a [] = a ∷ []
insert a (b ∷ l) = if less b a then b ∷ insert a l else a ∷ b ∷ l

-- `sort.Slice`: the order is total on intervals, so the sorted list is unique.
unfoldable pub sort : List Interval → List Interval
unfolding insert
sort [] = []
sort (a ∷ l) = insert a (sort l)

-- The loop of `normalizeIntervals`; `last` is the last merged interval.
unfoldable pub merge : Interval → List Interval → List Interval
merge last [] = last ∷ []
merge last (i ∷ l) = elim (leb i.start (add64 last.end 1)) [
  | true ↦ merge (if ltb last.end i.end then record last { end = i.end } else last) l
  | false ↦ last ∷ merge i l
]

abbrev pub merge_all : List Interval → List Interval
merge_all [] = []
merge_all (i ∷ l) = merge i l

-- `normalizeIntervals`
unfoldable pub normalize : List Interval → List Interval
unfolding sort merge
normalize l = merge_all (sort l)

-- The inner loop of `containsIntervals`.
unfoldable pub skip : ℕ → List Interval → List Interval
skip start [] = []
skip start (h ∷ l) = if ltb h.end start then skip start l else h ∷ l

abbrev pub fits : Interval → List Interval → Bool
fits target [] = false
fits target (h ∷ l) = if ltb target.start h.start || ltb h.end target.end then false else true

unfoldable pub contains : List Interval → List Interval → Bool
unfolding skip
contains have [] = true
contains have (target ∷ want) =
    let rest = skip target.start have in if fits target rest then contains rest want else false

-- One round of the loop of `subtractIntervalSet`.
unfoldable pub cut : Interval → Interval → List Interval
cut remove i =
    if ltb remove.end i.start || ltb i.end remove.start
    then i ∷ []
    else if leb remove.start i.start && leb i.end remove.end
    then []
    else if ltb i.start remove.start && ltb remove.end i.end
    then record { start = i.start; end = sub64 remove.start 1 }
      ∷ record { start = add64 remove.end 1; end = i.end }
      ∷ []
    else if leb remove.start i.start
    then record { start = add64 remove.end 1; end = i.end } ∷ []
    else record { start = i.start; end = sub64 remove.start 1 } ∷ []

-- `subtractIntervalSet`
unfoldable pub subtract_interval : List Interval → Interval → List Interval
unfolding cut
subtract_interval [] remove = []
subtract_interval (i ∷ l) remove = cut remove i ++ subtract_interval l remove

-- The loop of `Subtract` over one source's intervals; an empty `current` ends it.
unfoldable pub subtract_all : List Interval → List Interval → List Interval
unfolding subtract_interval
subtract_all current [] = current
subtract_all [] (r ∷ remove) = []
subtract_all (i ∷ l) (r ∷ remove) = subtract_all (subtract_interval (i ∷ l) r) remove
