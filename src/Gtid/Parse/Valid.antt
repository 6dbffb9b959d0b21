-- ===== src/Gtid/Parse/Valid.antt =====
-- What `ParseGTIDSet` of internal/replication/gtidset.go returns is a set.
use mha_go.Base.Errors.{ok-injective, test-eq-ok, return-eq-ok}
use mha_go.Base.{
  ℕ, ◌<◌, ◌+◌, ◌-◌, ◌*◌, ◌^◌, true, false, Text, text_eq, text_eq_sound, text_eq_refl, List, [],
  ◌∷◌, ◌++◌, ◌≡◌, refl, sym, subst, arith, All, All-append, Bool-cases, inl, inr, is_nil, ltb,
  scan_uint, parse_uint, Option, none, some, cut_at, trim_space, split, to_lower, Result, ok, err,
  >>=-eq-ok, map_err,
}
use mha_go.Gtid.Interval.{Interval, normalize}
use mha_go.Gtid.Interval.Cover.{IsValid, normalize-IsValid}
use mha_go.Gtid.Sets.{GtidSet, intervals, assign}
use mha_go.Gtid.Sets.Laws.{absent, IsSetOf, All-intervals}
use mha_go.Gtid.Parse.{
  invalid_interval, invalid_start, invalid_end, end_before_start, or_err, parse_bounds,
  parse_interval, parse_intervals, parse_parts, parse_token, parse_tokens, parse,
  invalid_interval_in, empty_interval, empty_sid,
}

scan_uint-fits : (s : Text) (n : ℕ) {m : ℕ} → n < 2 ^ 64 → scan_uint s n ≡ some m → m < 2 ^ 64
unfolding scan_uint
scan_uint-fits [] n h e = ground arith
scan_uint-fits (c ∷ s) n {m} h e = ground (arith, scan_uint-fits s (n * 10 + (c - 48)) {m = m})

parse_uint-fits : (s : Text) {m : ℕ} → parse_uint s ≡ some m → m < 2 ^ 64
unfolding parse_uint
parse_uint-fits [] e = cc
parse_uint-fits (c ∷ s) e = scan_uint-fits (c ∷ s) 0 (omega arith) e

or_err-eq-ok : {E A : Type 0} (e : E) (o : Option A) {a : A} → or_err e o ≡ ok a → o ≡ some a
or_err-eq-ok e none h = cc
or_err-eq-ok e (some b) h = ground arith

map_err-eq-ok :
    {E F A : Type 0} (f : E → F) (m : Result E A) {a : A} → map_err f m ≡ ok a → m ≡ ok a
map_err-eq-ok f (ok b) h = ground arith
map_err-eq-ok f (err e) h = cc

parse_bounds-IsValid :
    (raw value : Text) (o : Option (Text × Text)) {i : Interval}
    → parse_bounds raw value o ≡ ok i
    → IsValid i
unfolding parse_bounds
parse_bounds-IsValid raw value none {i} h =
    let (n, e, same) = >>=-eq-ok (or_err (invalid_interval raw) (parse_uint value)) _ h in
    let fits = parse_uint-fits value (or_err-eq-ok _ (parse_uint value) e) in
    subst IsValid (ok-injective same) record { ordered = omega arith; fits_u64 = fits }
parse_bounds-IsValid raw value (some (a, b)) {i} h =
    let (first, e, h') = >>=-eq-ok (or_err (invalid_start raw) (parse_uint (trim_space a))) _ h in
    let (last, e', same) = >>=-eq-ok (or_err (invalid_end raw) (parse_uint (trim_space b))) _ h' in
    let fits = parse_uint-fits (trim_space b) (or_err-eq-ok _ (parse_uint (trim_space b)) e') in
    let (lt, same) = test-eq-ok (ltb last first) (end_before_start last first) _ same in
    subst IsValid (ok-injective same) record { ordered = ground arith; fits_u64 = fits }

parse_interval-IsValid : (raw : Text) {i : Interval} → parse_interval raw ≡ ok i → IsValid i
unfolding parse_interval
parse_interval-IsValid raw h =
    parse_bounds-IsValid raw (trim_space raw) (cut_at 45 (trim_space raw))
      (test-eq-ok (is_nil (trim_space raw)) empty_interval _ h).1

parse_intervals-IsValid :
    (parts : List Text) (acc : List Interval) {l : List Interval}
    → All IsValid acc
    → parse_intervals parts acc ≡ ok l
    → All IsValid l
unfolding parse_intervals
parse_intervals-IsValid [] acc v h = subst (All IsValid) (ok-injective h) v
parse_intervals-IsValid (raw ∷ rest) acc v h =
    let (i, e, h') = >>=-eq-ok (parse_interval raw) _ h in
    parse_intervals-IsValid rest (acc ++ (i ∷ []))
      (All-append IsValid acc (i ∷ []) v (parse_interval-IsValid raw e, tt)) h'

text_eq-false : (a b : Text) → text_eq a b ≡ false → text_eq b a ≡ false
text_eq-false a b e = elim (Bool-cases (text_eq b a)) [
  | inl h ↦
      let same : text_eq a b ≡ true =
        subst (λ c. text_eq a c ≡ true) (sym (text_eq_sound b a h)) (text_eq_refl a) in
      cc
  | inr h ↦ h
]

absent-assign :
    (k sid : Text) (l : List Interval) (s : GtidSet)
    → text_eq sid k ≡ false
    → absent k s ≡ true
    → absent k (assign sid l s) ≡ true
unfolding absent assign
absent-assign k sid l [] d h = rw d refl
absent-assign k sid l ((j, m) ∷ s) d h = ground (arith, absent-assign k sid l s)

assign-IsSet :
    (sid : Text) (l : List Interval) (s : GtidSet)
    → All IsValid l
    → IsSetOf IsValid s
    → IsSetOf IsValid (assign sid l s)
unfolding assign
assign-IsSet sid l [] v w = (v, unfold absent in refl, tt)
assign-IsSet sid l ((j, m) ∷ s) v w = elim (Bool-cases (text_eq j sid)) [
  | inl e ↦ rw e (v, w.1, w.2)
  | inr e ↦
      rw e (w.0, absent-assign j sid l s (text_eq-false j sid e) w.1, assign-IsSet sid l s v w.2)
]

parse_parts-IsSet :
    (item : Text) (parts : List Text) (out : GtidSet) {s : GtidSet}
    → IsSetOf IsValid out
    → parse_parts item parts out ≡ ok s
    → IsSetOf IsValid s
unfolding parse_parts
parse_parts-IsSet item [] out v h = cc
parse_parts-IsSet item (p ∷ []) out v h = cc
parse_parts-IsSet item (p ∷ q ∷ rest) out v h =
    let sid = to_lower (trim_space p) in
    let (e, h') = test-eq-ok (is_nil sid) (empty_sid item) _ h in
    let (l, e', same) =
      >>=-eq-ok
        (map_err (invalid_interval_in item) (parse_intervals (q ∷ rest) (intervals sid out))) _
        h' in
    let w =
      parse_intervals-IsValid (q ∷ rest) (intervals sid out) (All-intervals IsValid sid out v)
        (map_err-eq-ok _ _ e') in
    subst (IsSetOf IsValid) (ok-injective same)
      (assign-IsSet sid (normalize l) out (normalize-IsValid l w) v)

parse_token-IsSet :
    (token : Text) (out : GtidSet) {s : GtidSet}
    → IsSetOf IsValid out
    → parse_token token out ≡ ok s
    → IsSetOf IsValid s
unfolding parse_token
parse_token-IsSet token out v h = elim (return-eq-ok (is_nil (trim_space token)) out _ h) [
  | inl same ↦ subst (IsSetOf IsValid) same v
  | inr h' ↦ parse_parts-IsSet (trim_space token) (split 58 (trim_space token)) out v h'
]

parse_tokens-IsSet :
    (tokens : List Text) (out : GtidSet) {s : GtidSet}
    → IsSetOf IsValid out
    → parse_tokens tokens out ≡ ok s
    → IsSetOf IsValid s
unfolding parse_tokens
parse_tokens-IsSet [] out v h = subst (IsSetOf IsValid) (ok-injective h) v
parse_tokens-IsSet (token ∷ rest) out v h =
    let (out', e, h') = >>=-eq-ok (parse_token token out) _ h in
    parse_tokens-IsSet rest out' (parse_token-IsSet token out v e) h'

-- The set of a text that can be parsed has one entry for each source id, with intervals of uint64
-- numbers that are not empty.
pub parse-IsSet : (raw : Text) {s : GtidSet} → parse raw ≡ ok s → IsSetOf IsValid s
unfolding parse
parse-IsSet raw h = elim (return-eq-ok (is_nil (trim_space raw)) [] _ h) [
  | inl same ↦ subst (IsSetOf IsValid) same tt
  | inr h' ↦ parse_tokens-IsSet (split 44 (trim_space raw)) [] tt h'
]
