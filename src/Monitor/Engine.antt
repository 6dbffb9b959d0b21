-- ===== src/Monitor/Engine.antt =====
-- `step` and `runSecondaryChecks` of internal/controller/monitor/engine.go. What the probes, the
-- replicas and the discovery answer in one round of the loop is an argument.
use mha_go.Base.{
  ℕ, zero, suc, ◌+◌, ℤ, pos, negsuc, Bool, true, false, not, ◌&&◌, ◌||◌, leb, Text, text_eq, is_nil,
  List, [], ◌∷◌, Option, none, some, find, if◌then◌else◌, Result, ok, err,
}
use mha_go.Domain.Spec.{ClusterSpec, NodeSpec, SecondaryCheckSpec}
use mha_go.Domain.View.{ClusterView, NodeState, EventSeverity, is_dead, primary_node, replica_nodes}

pub data MonitorPhase : Type 0 where
  healthy suspect secondary_check reconfirm_topology dead_confirmed : MonitorPhase

-- The answers of one round: the error of a probe, whether a node sees a source at a host and a port,
-- and a discovery.
pub record Answers : Type 0 where
  pub probe : NodeSpec → Option Text
  pub sees_source : NodeSpec → Text → ℤ → Result Text Bool
  pub discovered : Result Text ClusterView

-- The variables of the loop.
pub record Watch : Type 0 where
  pub phase : MonitorPhase
  pub failure_count : ℕ
  pub view : ClusterView

-- `nodeSpecByID`
unfoldable pub node_spec_by_id : ClusterSpec → Text → Option NodeSpec
unfolding find
node_spec_by_id spec id = find (λ n. text_eq n.id id) spec.nodes

-- The threshold of the loop.
unfoldable pub threshold_of : ℤ → ℕ
threshold_of (pos zero) = 3
threshold_of (pos (suc n)) = suc n
threshold_of (negsuc n) = 3

-- An answer that fails is passed over.
abbrev pub sees : Result Text Bool → Bool
sees (ok b) = b
sees (err e) = false

abbrev pub node_sees : Answers → NodeSpec → Option NodeSpec → Bool
node_sees a primary none = false
node_sees a primary (some n) = sees (a.sees_source n primary.host primary.port)

-- The loop over the replicas that are not dead.
unfoldable pub replicas_see : ClusterSpec → Answers → NodeSpec → List NodeState → Bool
unfolding node_spec_by_id
replicas_see spec a primary [] = false
replicas_see spec a primary (r ∷ l) =
    (not (is_dead r.health) && node_sees a primary (node_spec_by_id spec r.id))
    || replicas_see spec a primary l

-- The loop over the configured observers.
unfoldable pub observers_see : ClusterSpec → Answers → NodeSpec → List SecondaryCheckSpec → Bool
unfolding node_spec_by_id
observers_see spec a primary [] = false
observers_see spec a primary (c ∷ l) =
    (not (is_nil c.observer_node) && node_sees a primary (node_spec_by_id spec c.observer_node))
    || observers_see spec a primary l

abbrev pub secondary_behind : ClusterSpec → Answers → ClusterView → Option NodeSpec → Bool
secondary_behind spec a view none = false
secondary_behind spec a view (some primary) =
    replicas_see spec a primary (replica_nodes view)
    || observers_see spec a primary spec.controller.secondary_checks

-- `runSecondaryChecks`
unfoldable pub run_secondary_checks : ClusterSpec → Answers → ClusterView → Bool
unfolding replicas_see observers_see
run_secondary_checks spec a view =
    secondary_behind spec a view (node_spec_by_id spec view.primary_id)

abbrev pub watch_of : MonitorPhase → ℕ → ClusterView → Watch
watch_of phase n view = record { phase = phase; failure_count = n; view = view }

abbrev pub probed : ℕ → Watch → Option Text → Watch
probed threshold w none = watch_of healthy 0 w.view
probed threshold w (some e) =
    watch_of (if leb threshold (w.failure_count + 1) then secondary_check else suspect)
      (w.failure_count + 1) w.view

-- The primary's node in the configuration, where it has one, is probed.
abbrev pub probe_primary : ℕ → Answers → Watch → Option NodeSpec → Watch
probe_primary threshold a w none = w
probe_primary threshold a w (some primary) = probed threshold w (a.probe primary)

-- `!ok || primaryNode.Health == dead`
abbrev pub is_gone : Option NodeState → Bool
is_gone none = true
is_gone (some n) = is_dead n.health

abbrev pub reconfirmed : Watch → Result Text ClusterView → Watch
reconfirmed w (err e) = watch_of dead_confirmed w.failure_count w.view
reconfirmed w (ok v) =
    if is_gone (primary_node v)
    then watch_of dead_confirmed w.failure_count v
    else watch_of healthy 0 v

-- `step` by the phase.
abbrev pub step_in : ClusterSpec → ℕ → Answers → Watch → MonitorPhase → Watch
step_in spec threshold a w healthy =
    probe_primary threshold a w (node_spec_by_id spec w.view.primary_id)
step_in spec threshold a w suspect =
    probe_primary threshold a w (node_spec_by_id spec w.view.primary_id)
step_in spec threshold a w secondary_check =
    if run_secondary_checks spec a w.view
    then watch_of healthy 0 w.view
    else watch_of reconfirm_topology w.failure_count w.view
step_in spec threshold a w reconfirm_topology = reconfirmed w a.discovered
step_in spec threshold a w dead_confirmed = w

-- `step`
unfoldable pub step : ClusterSpec → ℕ → Answers → Watch → Watch
unfolding node_spec_by_id
step spec threshold a w = step_in spec threshold a w w.phase

-- The rounds of the loop in `Run`, in the order of time; it ends when the death is confirmed.
unfoldable pub rounds : ClusterSpec → ℕ → List Answers → Watch → Watch
unfolding step
rounds spec threshold [] w = w
rounds spec threshold (a ∷ l) w = rounds spec threshold l (step spec threshold a w)

-- `phaseSeverity`
unfoldable pub phase_severity : MonitorPhase → EventSeverity
phase_severity healthy = EventSeverity.info
phase_severity suspect = EventSeverity.warn
phase_severity secondary_check = EventSeverity.warn
phase_severity reconfirm_topology = EventSeverity.warn
phase_severity dead_confirmed = EventSeverity.error
