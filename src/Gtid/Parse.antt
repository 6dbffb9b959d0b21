-- ===== src/Gtid/Parse.antt =====
-- `ParseGTIDSet` and `parseInterval` of internal/replication/gtidset.go.
pub mod Valid
pub mod Message
pub mod Blank
use mha_go.Base.{
  ℕ, Bool, true, false, Text, List, [], ◌∷◌, Option, none, some, is_nil, trim_space, to_lower, ltb,
  ◌++◌, if◌then◌else◌, split, cut_at, parse_uint, Result, ok, err, ◌>>=◌, map_err,
}
use mha_go.Gtid.Interval.{Interval, normalize}
use mha_go.Gtid.Sets.{GtidSet, intervals, assign}

pub data IntervalError : Type 0 where
  empty_interval : IntervalError
  invalid_interval invalid_start invalid_end : Text → IntervalError
  end_before_start : ℕ → ℕ → IntervalError

pub data ParseError : Type 0 where
  invalid_token : Text → ParseError
  empty_sid : Text → ParseError
  invalid_interval_in : Text → IntervalError → ParseError

abbrev pub or_err : {E A : Type 0} → E → Option A → Result E A
or_err e none = err e
or_err e (some a) = ok a

-- `parseInterval` behind its tests for "" and "-": one number, or the texts around the first "-".
unfoldable pub parse_bounds : Text → Text → Option (Text × Text) → Result IntervalError Interval
unfolding parse_uint trim_space
parse_bounds raw value none = do
  n ← or_err (invalid_interval raw) (parse_uint value)
  ok (record { start = n; end = n })
parse_bounds raw value (some (a, b)) = do
  first ← or_err (invalid_start raw) (parse_uint (trim_space a))
  last ← or_err (invalid_end raw) (parse_uint (trim_space b))
  (if ltb last first
      then err (end_before_start last first)
      else ok (record { start = first; end = last }))

unfoldable pub parse_interval : Text → Result IntervalError Interval
unfolding parse_bounds trim_space cut_at
parse_interval raw =
    let value = trim_space raw in
    if is_nil value then err empty_interval else parse_bounds raw value (cut_at 45 value)

-- The loop over `parts[1:]`, which appends each interval.
unfoldable pub parse_intervals : List Text → List Interval → Result IntervalError (List Interval)
unfolding parse_interval
parse_intervals [] acc = ok acc
parse_intervals (raw ∷ rest) acc = do i ← parse_interval raw; parse_intervals rest (acc ++ (i ∷ []))

-- One token behind the test for "": the parts of "sid:interval:…".
unfoldable pub parse_parts : Text → List Text → GtidSet → Result ParseError GtidSet
unfolding parse_intervals normalize intervals assign to_lower trim_space
parse_parts item [] out = err (invalid_token item)
parse_parts item (p ∷ []) out = err (invalid_token item)
parse_parts item (p ∷ q ∷ rest) out =
    let sid = to_lower (trim_space p) in
    if is_nil sid then err (empty_sid item) else (do
      l ← map_err (invalid_interval_in item) (parse_intervals (q ∷ rest) (intervals sid out))
      ok (assign sid (normalize l) out))

unfoldable pub parse_token : Text → GtidSet → Result ParseError GtidSet
unfolding parse_parts trim_space split
parse_token token out =
    let item = trim_space token in
    if is_nil item then ok out else parse_parts item (split 58 item) out

unfoldable pub parse_tokens : List Text → GtidSet → Result ParseError GtidSet
unfolding parse_token
parse_tokens [] out = ok out
parse_tokens (token ∷ rest) out = do out' ← parse_token token out; parse_tokens rest out'

-- `ParseGTIDSet`
unfoldable pub parse : Text → Result ParseError GtidSet
unfolding parse_tokens trim_space split
parse raw =
    let value = trim_space raw in if is_nil value then ok [] else parse_tokens (split 44 value) []
