-- ===== src/Gtid/Print.antt =====
-- `GTIDSet.String` of internal/replication/gtidset.go, and the operations on texts.
pub mod Nothing
use mha_go.Base.{
  ℕ, Bool, true, false, Text, text_lt, List, [], ◌∷◌, ◌++◌, map, is_nil, ◌==◌, if◌then◌else◌, join,
  print_uint, Result, ok, err, ◌>>=◌,
}
use mha_go.Gtid.Interval.{Interval, normalize}
use mha_go.Gtid.Sets.{GtidSet}
use mha_go.Gtid.Sets
use mha_go.Gtid.Parse.{ParseError, parse}

abbrev pub Entry : Type 0
Entry = Text × List Interval

-- The keys are distinct, so sorting them sorts the entries.
unfoldable pub insert_entry : Entry → GtidSet → GtidSet
insert_entry e [] = e ∷ []
insert_entry (k, l) ((j, m) ∷ s) =
    if text_lt j k then (j, m) ∷ insert_entry (k, l) s else (k, l) ∷ (j, m) ∷ s

unfoldable pub sort_entries : GtidSet → GtidSet
unfolding insert_entry
sort_entries [] = []
sort_entries (e ∷ s) = insert_entry e (sort_entries s)

unfoldable pub print_interval : Interval → Text
unfolding print_uint
print_interval i =
    if i.start == i.end then print_uint i.start else print_uint i.start ++ (45 ∷ print_uint i.end)

-- "sid:interval:…"
unfoldable pub print_entry : Text → List Interval → Text
unfolding print_interval join
print_entry sid l = join 58 (sid ∷ map print_interval l)

-- The loop over the sorted source ids; an entry with no interval is left out.
unfoldable pub print_entries : GtidSet → List Text
unfolding print_entry normalize
print_entries [] = []
print_entries ((sid, l) ∷ s) =
    let shown = normalize l in
    if is_nil shown then print_entries s else print_entry sid shown ∷ print_entries s

-- `GTIDSet.String`
unfoldable pub print : GtidSet → Text
unfolding print_entries sort_entries join
print s = join 44 (print_entries (sort_entries s))

-- `SubtractGTIDSets`; its `known` result is true whenever there is no error.
unfoldable pub subtract_texts : Text → Text → Result ParseError Text
unfolding print parse Sets.subtract
subtract_texts left_raw right_raw = do
  left ← parse left_raw
  right ← parse right_raw
  ok (print (Sets.subtract left right))

-- `ContainsGTIDSet`
unfoldable pub contains_texts : Text → Text → Result ParseError Bool
unfolding parse Sets.contains
contains_texts superset_raw subset_raw = do
  superset ← parse superset_raw
  subset ← parse subset_raw
  ok (Sets.contains superset subset)
