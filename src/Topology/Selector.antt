-- ===== src/Topology/Selector.antt =====
-- The candidate selectors of internal/topology/interfaces.go.
use mha_go.Base.{
  ℕ, ◌/◌, ℤ, pos, negsuc, ◌+ℤ◌, ◌-ℤ◌, ltb_ℤ, eqb_ℤ, leb, ◌==◌, Bool, true, false, not, ◌&&◌, ◌||◌,
  Text, codes, text_eq, text_lt, List, [], ◌∷◌, ◌++◌, Option, none, some, if◌then◌else◌, keep, find,
  Result, ok, err,
}
use mha_go.Domain.Spec.{is_replica, is_primary}
use mha_go.Domain.View.{NodeState, ReplicaState, ClusterView, NodeHealth, is_dead}
use mha_go.Gtid.Recovery.{candidate_freshness_score}
pub mod Best

abbrev pub has_auto_position : Option ReplicaState → Bool
has_auto_position none = false
has_auto_position (some r) = r.auto_position

-- The filter of `DefaultCandidateSelector`.
unfoldable pub is_eligible : NodeState → Bool
is_eligible n =
    is_replica n.role
    && (not (is_dead n.health) && (not n.no_master && has_auto_position n.replica))

abbrev pub health_score : NodeHealth → ℤ
health_score NodeHealth.alive = pos 200
health_score NodeHealth.suspect = pos 100
health_score _ = pos 0

-- The `switch` on the lag: what is added to the score.
abbrev pub lag_score : ℤ → ℤ
lag_score (negsuc n) = negsuc 19
lag_score (pos n) =
    if n == 0
    then pos 50
    else if leb n 5
    then pos 20
    else if leb n 30
    then pos 5
    else pos 0 -ℤ pos (n / 5)

abbrev pub points : Bool → ℕ → ℤ
points test n = if test then pos n else pos 0

abbrev pub replica_score : NodeState → ClusterView → Option ReplicaState → ℤ
replica_score n view none = health_score n.health
replica_score n view (some r) =
    health_score n.health
    +ℤ points (text_eq r.source_id view.primary_id) 80
    +ℤ points r.sql_thread_running 60
    +ℤ points r.io_thread_running 40
    +ℤ points r.semi_sync_replica 30
    +ℤ points (n.read_only && n.super_read_only) 20
    +ℤ lag_score r.seconds_behind_source
    +ℤ candidate_freshness_score n view.nodes

-- `candidateScore`
unfoldable pub candidate_score : NodeState → ClusterView → ℤ
unfolding ◌+ℤ◌ ◌-ℤ◌ candidate_freshness_score
candidate_score n view = replica_score n view n.replica

-- `if a != b { if a > b { return -1 }; return 1 }`, and the tests behind it.
unfoldable pub higher_first : ℤ → ℤ → Bool → Bool
higher_first a b later = if not (eqb_ℤ a b) then ltb_ℤ b a else later

unfoldable pub greater_first : Text → Text → Bool → Bool
greater_first a b later = if not (text_eq a b) then text_lt b a else later

-- Whether the comparison function of the sort returns -1.
unfoldable pub before : ClusterView → NodeState → NodeState → Bool
before view a b = higher_first (candidate_score a view) (candidate_score b view) (
    higher_first a.candidate_priority b.candidate_priority
      (greater_first a.version_series b.version_series (text_lt a.id b.id)))

unfoldable pub insert_by :
    (NodeState → NodeState → Bool) → NodeState → List NodeState → List NodeState
insert_by lt a [] = a ∷ []
insert_by lt a (b ∷ l) = if lt b a then b ∷ insert_by lt a l else a ∷ b ∷ l

-- `slices.SortFunc`: on nodes with distinct ids no two compare equal, so the order is unique.
unfoldable pub sort_by : (NodeState → NodeState → Bool) → List NodeState → List NodeState
unfolding insert_by
sort_by lt [] = []
sort_by lt (a ∷ l) = insert_by lt a (sort_by lt l)

pub data SelectError : Type 0 where
  no_candidate_replica : SelectError
  already_primary no_master_set is_dead_node not_found : Text → SelectError

abbrev pub first_of : List NodeState → Result SelectError NodeState
first_of [] = err no_candidate_replica
first_of (n ∷ l) = ok n

-- `DefaultCandidateSelector.SelectFailoverCandidate`
unfoldable pub select_default : ClusterView → Result SelectError NodeState
unfolding keep is_eligible sort_by before
select_default view = first_of (sort_by (before view) (keep is_eligible view.nodes))

-- `PinnedCandidateSelector.SelectFailoverCandidate`
unfoldable pub select_pinned : Text → ClusterView → Result SelectError NodeState
unfolding find
select_pinned id view = elim (find (λ n. text_eq n.id id) view.nodes) [
  | none ↦ err (not_found id)
  | some n ↦
      if is_primary n.role
      then err (already_primary id)
      else if n.no_master
      then err (no_master_set id)
      else if is_dead n.health
      then err (is_dead_node id)
      else ok n
]
