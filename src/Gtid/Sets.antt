-- ===== src/Gtid/Sets.antt =====
-- `GTIDSet` of internal/replication/gtidset.go: intervals by source id. The map is an association
-- list with one entry for each source id; Go iterates over it in any order.
use mha_go.Base.{
  Bool, true, false, ◌&&◌, Text, text_eq, List, [], ◌∷◌, Option, none, some, is_nil, if◌then◌else◌,
}
use mha_go.Gtid.Interval
use mha_go.Gtid.Interval.{Interval, normalize, subtract_all}
pub mod Laws

abbrev pub GtidSet : Type 0
GtidSet = List (Text × List Interval)

-- `s[sid]`, which is nil where the key is missing.
unfoldable pub intervals : Text → GtidSet → List Interval
intervals sid [] = []
intervals sid ((k, l) ∷ s) = if text_eq k sid then l else intervals sid s

-- `s[sid] = l`
unfoldable pub assign : Text → List Interval → GtidSet → GtidSet
assign sid l [] = (sid, l) ∷ []
assign sid l ((k, m) ∷ s) = if text_eq k sid then (k, l) ∷ s else (k, m) ∷ assign sid l s

unfoldable pub is_empty : GtidSet → Bool
is_empty [] = true
is_empty ((k, l) ∷ s) = is_nil l && is_empty s

unfoldable pub contains : GtidSet → GtidSet → Bool
unfolding intervals normalize Interval.contains
contains s [] = true
contains s ((sid, l) ∷ other) =
    Interval.contains (normalize (intervals sid s)) (normalize l) && contains s other

-- What the inner loop of `Subtract` leaves of one source's intervals.
unfoldable pub remaining : Text → List Interval → GtidSet → List Interval
unfolding intervals normalize subtract_all
remaining k l other = subtract_all (normalize l) (normalize (intervals k other))

unfoldable pub subtract : GtidSet → GtidSet → GtidSet
subtract [] other = []
subtract ((sid, l) ∷ s) other =
    let current = remaining sid l other in
    let rest = subtract s other in if is_nil current then rest else (sid, current) ∷ rest
