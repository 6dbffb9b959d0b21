-- ===== src/Gtid/Tests.antt =====
-- Runs of the code in internal/replication/gtidset.go at the inputs of gtidset_test.go and others.
use mha_go.Base.{
  ℕ, ◌≤◌, ◌<◌, ◌+◌, ◌^◌, Text, codes, List, [], ◌∷◌, All, not, ◌&&◌, arith, ◌↔◌, ◌≡◌, refl, ok,
  true, text_eq, text_lt,
}
use mha_go.Gtid.Interval.{Interval, normalize}
use mha_go.Gtid.Interval.Cover.{IsValid, covers, covers-normalize}
use mha_go.Gtid.Interval.Normal.{IsBounded, Gapped, normalize-Gapped}
use mha_go.Gtid.Sets
use mha_go.Gtid.Sets.{GtidSet, remaining}
use mha_go.Gtid.Sets.Laws.{IsSetOf, absent, member, member-subtract, contains_iff_subset}
use mha_go.Gtid.Parse.{parse}
use mha_go.Gtid.Parse.Valid.{parse-IsSet}
use mha_go.Gtid.Print.Nothing.{subtract_texts_nil}
use mha_go.Gtid.Print.{subtract_texts, contains_texts}

subtract_run :
    subtract_texts (codes "uuid1:1-20,uuid2:1-3") (codes "UUID1:1-10:12")
    ≡ ok (codes "uuid1:11:13-20,uuid2:1-3")
unfolding subtract_texts text_eq text_lt remaining
subtract_run = refl

contains_run : contains_texts (codes "uuid1:1-20") (codes " uuid1:5-7:6-9") ≡ ok true
unfolding contains_texts text_eq
contains_run = refl

abbrev range : ℕ → ℕ → Interval
range a b = record { start = a; end = b }

-- Unsorted, with two intervals that overlap.
abbrev ranges : List Interval
ranges = range 12 20 ∷ range 1 5 ∷ range 4 9 ∷ []

range-IsValid : (a b : ℕ) → a ≤ b → b < 2 ^ 64 → IsValid (range a b)
range-IsValid a b h k = record { ordered = h; fits_u64 = k }

range-IsBounded : (a b : ℕ) → a ≤ b → b + 1 < 2 ^ 64 → IsBounded (range a b)
range-IsBounded a b h k = record { ordered = h; below_max = k }

ranges-IsValid : All IsValid ranges
ranges-IsValid = (
  range-IsValid 12 20 (ground arith) (ground arith),
  (
    range-IsValid 1 5 (ground arith) (ground arith),
    (range-IsValid 4 9 (ground arith) (ground arith), tt),
  ),
)

ranges-IsBounded : All IsBounded ranges
ranges-IsBounded = (
  range-IsBounded 12 20 (ground arith) (ground arith),
  (
    range-IsBounded 1 5 (ground arith) (ground arith),
    (range-IsBounded 4 9 (ground arith) (ground arith), tt),
  ),
)

covers-normalize_example : covers 7 (normalize ranges) ≡ covers 7 ranges
covers-normalize_example = covers-normalize 7 ranges ranges-IsValid

normalize-Gapped_example : Gapped 0 (normalize ranges)
normalize-Gapped_example = normalize-Gapped ranges ranges-IsBounded

abbrev left_set : GtidSet
left_set = (codes "u1", ranges) ∷ []

abbrev right_set : GtidSet
right_set = (codes "u1", range 4 9 ∷ []) ∷ []

left-IsValid : IsSetOf IsValid left_set
unfolding absent
left-IsValid = (ranges-IsValid, refl, tt)

right-IsValid : IsSetOf IsValid right_set
unfolding absent
right-IsValid = ((range-IsValid 4 9 (ground arith) (ground arith), tt), refl, tt)

left-IsBounded : IsSetOf IsBounded left_set
unfolding absent
left-IsBounded = (ranges-IsBounded, refl, tt)

right-IsBounded : IsSetOf IsBounded right_set
unfolding absent
right-IsBounded = ((range-IsBounded 4 9 (ground arith) (ground arith), tt), refl, tt)

member-subtract_example :
    member (Sets.subtract left_set right_set) (codes "u1") 3
    ≡ (member left_set (codes "u1") 3 && not (member right_set (codes "u1") 3))
member-subtract_example =
    member-subtract left_set right_set (codes "u1") 3 left-IsValid right-IsValid

contains_iff_subset_example :
    (Sets.contains left_set right_set ≡ true)
    ↔ ((sid : Text) (n : ℕ) → member right_set sid n ≡ true → member left_set sid n ≡ true)
contains_iff_subset_example = contains_iff_subset left_set right_set left-IsBounded right-IsBounded

parse_left : parse (codes "U1:12-20:1-5:4-9") ≡ ok ((codes "u1", range 1 9 ∷ range 12 20 ∷ []) ∷ [])
unfolding parse text_eq
parse_left = refl

parse_right : parse (codes " u1:4-5 ") ≡ ok ((codes "u1", range 4 5 ∷ []) ∷ [])
unfolding parse text_eq
parse_right = refl

nothing_left : subtract_texts (codes " u1:4-5 ") (codes "U1:12-20:1-5:4-9") ≡ ok []
unfolding subtract_texts text_eq text_lt remaining
nothing_left = refl

member_right : member ((codes "u1", range 4 5 ∷ []) ∷ []) (codes "u1") 5 ≡ true
unfolding member covers text_eq
member_right = refl

parse-IsSet_example : IsSetOf IsValid ((codes "u1", range 1 9 ∷ range 12 20 ∷ []) ∷ [])
parse-IsSet_example = parse-IsSet (codes "U1:12-20:1-5:4-9") parse_left

subtract_texts_nil_example :
    member ((codes "u1", range 1 9 ∷ range 12 20 ∷ []) ∷ []) (codes "u1") 5 ≡ true
subtract_texts_nil_example =
    subtract_texts_nil (codes " u1:4-5 ") (codes "U1:12-20:1-5:4-9") (codes "u1") 5 parse_right
      parse_left nothing_left member_right
