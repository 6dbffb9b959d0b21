-- ===== src/Gtid/Print/Nothing.antt =====
-- What an empty result of `SubtractGTIDSets` of internal/replication/gtidset.go says.
use mha_go.Base.{
  ℕ, Bool, true, false, ◌&&◌, Text, List, [], ◌∷◌, ◌++◌, ◌≡◌, refl, sym, ap, ◌∙◌, arith, join,
  Bool-cases, inl, inr, is_nil, is_nil-eq, is_blank, text_eq, ok,
}
use mha_go.Base.Strings.{is_space}
use mha_go.Base.Strings.Trim.{is_blank-append, nonspace-not_blank}
use mha_go.Gtid.Interval.{Interval, normalize}
use mha_go.Gtid.Interval.Cover.{
  IsValid, covers, covers-normalize, normalize-IsValid, subtract_all-IsValid,
}
use mha_go.Gtid.Sets
use mha_go.Gtid.Sets.{GtidSet, intervals, remaining}
use mha_go.Gtid.Sets.Laws.{
  IsSetOf, All-intervals, absent-subtract, member, covers_nil, member-subtract,
}
use mha_go.Gtid.Parse.{parse}
use mha_go.Gtid.Parse.Valid.{parse-IsSet}
use mha_go.Base.Errors.{ok-injective}
use mha_go.Gtid.Print.{
  Entry, insert_entry, sort_entries, print_entry, print_entries, print, subtract_texts,
}

-- No entry is printed.
unfoldable none_shown : GtidSet → Bool
none_shown [] = true
none_shown ((sid, l) ∷ s) = is_nil (normalize l) && none_shown s

none_shown-insert_entry :
    (e : Entry) (s : GtidSet)
    → none_shown (insert_entry e s) ≡ (is_nil (normalize e.1) && none_shown s)
unfolding none_shown insert_entry
none_shown-insert_entry e [] = refl
none_shown-insert_entry (k, l) ((j, m) ∷ s) = ground (arith, none_shown-insert_entry (k, l) s)

none_shown-sort_entries : (s : GtidSet) → none_shown (sort_entries s) ≡ none_shown s
unfolding none_shown sort_entries
none_shown-sort_entries [] = refl
none_shown-sort_entries (e ∷ s) =
    ground (arith, none_shown-sort_entries s, none_shown-insert_entry e (sort_entries s))

blank-colon : (s t : Text) → is_blank (s ++ (58 ∷ t)) ≡ false
blank-colon s t =
    is_blank-append s (58 ∷ t) ∙ ground (arith, nonspace-not_blank 58 t (unfold is_space in refl))

blank-print_entry :
    (sid : Text) (l : List Interval) → is_nil l ≡ false → is_blank (print_entry sid l) ≡ false
unfolding print_entry join
blank-print_entry sid [] h = cc
blank-print_entry sid (i ∷ l) h = blank-colon sid _

blank-join :
    (c : ℕ) (x : Text) (l : List Text) → is_blank x ≡ false → is_blank (join c (x ∷ l)) ≡ false
unfolding join
blank-join c x [] h = h
blank-join c x (y ∷ l) h = is_blank-append x _ ∙ rw h refl

blank-print_entries :
    (s : GtidSet) → is_blank (join 44 (print_entries s)) ≡ true → none_shown s ≡ true
unfolding none_shown print_entries
blank-print_entries [] h = refl
blank-print_entries ((sid, l) ∷ s) h = elim (Bool-cases (is_nil (normalize l))) [
  | inl e ↦ ground (arith, blank-print_entries s)
  | inr e ↦ ground (
    arith,
    blank-join 44 (print_entry sid (normalize l)) (print_entries s),
    blank-print_entry sid (normalize l) e,
  )
]

none_shown-member :
    (s : GtidSet) (sid : Text) (n : ℕ)
    → IsSetOf IsValid s
    → none_shown s ≡ true
    → member s sid n ≡ false
unfolding none_shown member intervals
none_shown-member [] sid n v h = covers_nil n
none_shown-member ((k, l) ∷ s) sid n v h = elim (Bool-cases (text_eq k sid)) [
  | inl e ↦ rw e (
      sym (covers-normalize n l v.0)
      ∙ (ap (covers n) (is_nil-eq (normalize l) (ground arith)) ∙ covers_nil n))
  | inr e ↦ rw e (none_shown-member s sid n v.2 (ground arith))
]

subtract-IsSet :
    (s other : GtidSet)
    → IsSetOf IsValid s
    → IsSetOf IsValid other
    → IsSetOf IsValid (Sets.subtract s other)
unfolding Sets.subtract remaining
subtract-IsSet [] other v w = tt
subtract-IsSet ((k, l) ∷ s) other v w = elim (Bool-cases (is_nil (remaining k l other))) [
  | inl e ↦ rw e (subtract-IsSet s other v.2 w)
  | inr e ↦ rw e (
    subtract_all-IsValid (normalize l) (normalize (intervals k other)) (normalize-IsValid l v.0)
        (normalize-IsValid (intervals k other) (All-intervals IsValid k other w)),
    absent-subtract k s other v.1,
    subtract-IsSet s other v.2 w,
  )
]

print_blank-member :
    (s : GtidSet) (sid : Text) (n : ℕ)
    → IsSetOf IsValid s
    → is_blank (print s) ≡ true
    → member s sid n ≡ false
unfolding print
print_blank-member s sid n v h =
    none_shown-member s sid n v
      (sym (none_shown-sort_entries s) ∙ blank-print_entries (sort_entries s) h)

-- If the difference of two texts that can be parsed is printed as a text of spaces, then every
-- transaction of the first is in the second.
pub subtract_texts_blank :
    (a b : Text) {s t : GtidSet} {r : Text} (sid : Text) (n : ℕ)
    → parse a ≡ ok s
    → parse b ≡ ok t
    → subtract_texts a b ≡ ok r
    → is_blank r ≡ true
    → member s sid n ≡ true
    → member t sid n ≡ true
unfolding subtract_texts
subtract_texts_blank a b {s} {t} sid n e e' h blank m =
    let v = parse-IsSet a e in
    let w = parse-IsSet b e' in
    let run : subtract_texts a b ≡ ok (print (Sets.subtract s t)) = rw e (rw e' refl) in
    let shown = ok-injective (sym run ∙ h) in
    let none =
      print_blank-member (Sets.subtract s t) sid n (subtract-IsSet s t v w)
        (ap is_blank shown ∙ blank) in
    let split = member-subtract s t sid n v w in ground arith

-- If the difference of two texts that can be parsed is the empty text, then every transaction of the
-- first is in the second.
pub subtract_texts_nil :
    (a b : Text) {s t : GtidSet} (sid : Text) (n : ℕ)
    → parse a ≡ ok s
    → parse b ≡ ok t
    → subtract_texts a b ≡ ok []
    → member s sid n ≡ true
    → member t sid n ≡ true
subtract_texts_nil a b sid n e e' h m =
    subtract_texts_blank a b sid n e e' h (unfold is_blank in refl) m
