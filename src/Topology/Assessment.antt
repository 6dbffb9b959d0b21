-- ===== src/Topology/Assessment.antt =====
-- internal/topology/assessment.go and `specNodeRole` of internal/topology/sql_discoverer.go.
use mha_go.Base.{
  ℕ, ◌+◌, ℤ, pos, ltb_ℤ, Bool, not, ◌&&◌, ◌||◌, Text, codes, text_eq, List, [], ◌∷◌, ◌++◌, Option,
  none, some, is_nil, if◌then◌else◌, find, keep, print_int, print_bool,
}
use mha_go.Domain.Spec.{ClusterSpec, NodeSpec, NodeRole, is_observer, is_primary, SemiSyncPolicy}
use mha_go.Domain.View.{
  NodeState, ReplicaState, ClusterView, NodeHealth, is_dead, is_alive, EventSeverity, is_error,
  is_warn, primary_node,
}

pub data FindingCode : Type 0 where
  primary_missing primary_unhealthy primary_read_only observer_unreachable : FindingCode
  replica_missing_state replica_dead version_series_mismatch auto_position_disabled : FindingCode
  replica_sql_thread_down replica_io_thread_down replica_source_unknown : FindingCode
  cascading_not_allowed replica_writable replica_lagging : FindingCode
  semisync_required_but_disabled semisync_replica_shortfall semisync_degraded : FindingCode

pub record Finding : Type 0 where
  pub severity : EventSeverity
  pub code : FindingCode
  pub node_id : Text
  pub message : Text

abbrev pub Assessment : Type 0
Assessment = List Finding

-- `Assessment.Errors`, `Warnings` and `HasErrors`
unfoldable pub errors : Assessment → List Finding
unfolding keep
errors = keep (λ f. is_error f.severity)

unfoldable pub warnings : Assessment → List Finding
unfolding keep
warnings = keep (λ f. is_warn f.severity)

unfoldable pub has_errors : Assessment → Bool
unfolding errors
has_errors a = not (is_nil (errors a))

-- `specNodeRole`
unfoldable pub spec_node_role : ClusterSpec → Text → NodeRole
unfolding find
spec_node_role spec id = elim (find (λ (n : NodeSpec). text_eq n.id id) spec.nodes) [
  | none ↦ NodeRole.unknown
  | some n ↦ n.expected_role
]

-- `specNodeVersionSeries`
unfoldable pub spec_node_version_series : ClusterSpec → Text → Text
unfolding find
spec_node_version_series spec id = elim (find (λ (n : NodeSpec). text_eq n.id id) spec.nodes) [
  | none ↦ []
  | some n ↦ n.version_series
]

health_text : NodeHealth → Text
health_text NodeHealth.unknown = codes "unknown"
health_text NodeHealth.alive = codes "alive"
health_text NodeHealth.suspect = codes "suspect"
health_text NodeHealth.dead = codes "dead"

read_only_text : NodeState → Text
read_only_text n =
    codes "read_only="
    ++ print_bool n.read_only
    ++ codes " super_read_only="
    ++ print_bool n.super_read_only

mismatch_text : Text → Text → Text
mismatch_text expected reported =
    codes "config expects " ++ expected ++ codes " but node reports " ++ reported

source_text : Text → Text → Text
source_text source primary =
    codes "replica source " ++ source ++ codes " is not the primary " ++ primary

shortfall_text : ℕ → ℤ → Text
shortfall_text count required =
    codes "semi-sync replicas="
    ++ print_int (pos count)
    ++ codes ", required="
    ++ print_int required

-- `assessment.Add`
abbrev pub finding : EventSeverity → FindingCode → Text → Text → Finding
finding severity code node_id message = record {
  severity = severity;
  code = code;
  node_id = node_id;
  message = message;
}

-- An `if` whose body is one `Add`.
abbrev pub when : Bool → Finding → List Finding
when test f = if test then f ∷ [] else []

abbrev pub severity_if : Bool → EventSeverity
severity_if test = if test then EventSeverity.error else EventSeverity.warn

-- The findings before the loop.
unfoldable pub assess_primary : NodeState → List Finding
unfolding health_text read_only_text
assess_primary p =
    when (not (is_alive p.health)) (
      finding EventSeverity.error primary_unhealthy p.id
        (codes "primary health is " ++ health_text p.health))
    ++ when (p.read_only || p.super_read_only) (
        finding EventSeverity.warn primary_read_only p.id (codes "primary is " ++ read_only_text p))

unfoldable pub assess_source : ClusterSpec → NodeState → Text → Text → List Finding
unfolding source_text
assess_source spec primary id source =
    if is_nil source
    then finding EventSeverity.error replica_source_unknown id
        (codes "replica source is not mapped to any configured node")
      ∷ []
    else when (not spec.topology.allow_cascading_replicas && not (text_eq source primary.id))
        (finding EventSeverity.error cascading_not_allowed id (source_text source primary.id))

-- The part of the loop's body behind the checks for a missing replica state.
unfoldable pub assess_replica : ClusterSpec → NodeState → NodeState → ReplicaState → List Finding
unfolding read_only_text mismatch_text assess_source
assess_replica spec primary n r =
    let expected = spec_node_version_series spec n.id in
    when (is_dead n.health)
      (finding (severity_if (not n.ignore_fail)) replica_dead n.id (codes "replica is unreachable"))
    ++ when
        (not (is_nil n.version_series)
          && (not (is_nil expected) && not (text_eq n.version_series expected)))
        (finding EventSeverity.warn version_series_mismatch n.id
          (mismatch_text expected n.version_series))
    ++ when (not r.auto_position) (
        finding EventSeverity.error auto_position_disabled n.id
          (codes "replica auto-position is disabled but GTID-only mode is required"))
    ++ when (not r.sql_thread_running) (
        finding EventSeverity.error replica_sql_thread_down n.id
          (codes "replica SQL thread is not running"))
    ++ when (not r.io_thread_running) (
        finding (severity_if (is_alive primary.health)) replica_io_thread_down n.id
          (codes "replica IO thread is not running"))
    ++ assess_source spec primary n.id r.source_id
    ++ when (not n.read_only || not n.super_read_only) (
        finding EventSeverity.warn replica_writable n.id
          (codes "replica is writable: " ++ read_only_text n))
    ++ when (ltb_ℤ (pos 30) r.seconds_behind_source) (
        finding EventSeverity.warn replica_lagging n.id
          (codes "replica lag is " ++ print_int r.seconds_behind_source ++ codes " seconds"))

abbrev pub assess_state :
    ClusterSpec → NodeState → NodeState → Option ReplicaState → List Finding × ℕ
assess_state spec primary n none = (
  finding (severity_if (not n.ignore_fail)) replica_missing_state n.id
        (codes "replica has no replication state")
      ∷ [],
  0,
)
assess_state spec primary n (some r) =
    (assess_replica spec primary n r, if r.semi_sync_replica then 1 else 0)

-- One round of the loop: its findings, and what it adds to `semiSyncReplicaCount`.
unfoldable pub assess_node : ClusterSpec → NodeState → NodeState → List Finding × ℕ
assess_node spec primary n =
    if is_observer n.role || is_observer (spec_node_role spec n.id)
    then (
      when (is_dead n.health) (
          finding EventSeverity.warn observer_unreachable n.id
            (codes "observer node is unreachable")),
      0,
    )
    else if is_primary n.role
    then ([], 0)
    else assess_state spec primary n n.replica

unfoldable pub assess_nodes : ClusterSpec → NodeState → List NodeState → List Finding × ℕ
unfolding assess_node
assess_nodes spec primary [] = ([], 0)
assess_nodes spec primary (n ∷ nodes) =
    let (f, c) = assess_node spec primary n in
    let (fs, count) = assess_nodes spec primary nodes in (f ++ fs, c + count)

-- The `switch` on the semi-sync policy.
unfoldable pub assess_semi_sync : SemiSyncPolicy → ℤ → NodeState → ℕ → List Finding
unfolding shortfall_text
assess_semi_sync SemiSyncPolicy.required wanted primary count =
    when (not primary.semi_sync_source) (
      finding EventSeverity.error semisync_required_but_disabled primary.id
        (codes "semi-sync source is not operational on the primary"))
    ++ when (ltb_ℤ (pos count) wanted) (
        finding EventSeverity.error semisync_replica_shortfall primary.id
          (shortfall_text count wanted))
assess_semi_sync SemiSyncPolicy.preferred wanted primary count =
    when (not primary.semi_sync_source) (
      finding EventSeverity.warn semisync_degraded primary.id (
        codes
          "semi-sync is not operational on the primary; cluster is currently relying on async durability"))
assess_semi_sync SemiSyncPolicy.disabled wanted primary count = []
assess_semi_sync SemiSyncPolicy.unset wanted primary count = []

-- `AssessReplication`
unfoldable pub assess_replication : ClusterSpec → ClusterView → Assessment
assess_replication spec view = elim (primary_node view) [
  | none ↦
      finding EventSeverity.error primary_missing []
        (codes "no primary was identified in the discovered topology")
      ∷ []
  | some primary ↦
      let (found, count) = assess_nodes spec primary view.nodes in
      assess_primary primary
      ++ found
      ++ assess_semi_sync spec.replication.semi_sync.policy
          spec.replication.semi_sync.wait_for_replica_count primary count
]
