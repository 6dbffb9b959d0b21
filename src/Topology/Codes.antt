-- ===== src/Topology/Codes.antt =====
-- The codes of the findings of internal/topology/assessment.go, and the events that both controllers
-- make of them.
use mha_go.Base.{Text, codes, List, [], ◌∷◌, map, ◌≡◌, refl}
use mha_go.Effects.Updates.{updates}
use mha_go.Effects.{Effect, append_event}
use mha_go.Topology.Assessment.{
  Finding, FindingCode, primary_missing, primary_unhealthy, primary_read_only, observer_unreachable,
  replica_missing_state, replica_dead, version_series_mismatch, auto_position_disabled,
  replica_sql_thread_down, replica_io_thread_down, replica_source_unknown, cascading_not_allowed,
  replica_writable, replica_lagging, semisync_required_but_disabled, semisync_replica_shortfall,
  semisync_degraded,
}

unfoldable pub code_text : FindingCode → Text
code_text primary_missing = codes "primary_missing"
code_text primary_unhealthy = codes "primary_unhealthy"
code_text primary_read_only = codes "primary_read_only"
code_text observer_unreachable = codes "observer_unreachable"
code_text replica_missing_state = codes "replica_missing_state"
code_text replica_dead = codes "replica_dead"
code_text version_series_mismatch = codes "version_series_mismatch"
code_text auto_position_disabled = codes "auto_position_disabled"
code_text replica_sql_thread_down = codes "replica_sql_thread_down"
code_text replica_io_thread_down = codes "replica_io_thread_down"
code_text replica_source_unknown = codes "replica_source_unknown"
code_text cascading_not_allowed = codes "cascading_not_allowed"
code_text replica_writable = codes "replica_writable"
code_text replica_lagging = codes "replica_lagging"
code_text semisync_required_but_disabled = codes "semisync_required_but_disabled"
code_text semisync_replica_shortfall = codes "semisync_replica_shortfall"
code_text semisync_degraded = codes "semisync_degraded"

-- The event of a finding.
unfoldable pub finding_event : {C : Type 0} → Text → Finding → Effect C
unfolding code_text
finding_event run_id f = append_event run_id (record {
  phase = codes "assess";
  severity = f.severity;
  message = f.message;
  metadata = (codes "code", code_text f.code) ∷ (codes "node_id", f.node_id) ∷ [];
})

pub updates-findings :
    (C : Type 0) (run_id : Text) (findings : List Finding)
    → updates {C = C} (map (finding_event run_id) findings) ≡ []
unfolding updates finding_event
updates-findings C run_id [] = refl
updates-findings C run_id (f ∷ findings) = updates-findings C run_id findings
