-- ===== src/Failover/Plan.antt =====
-- `BuildPlan` of internal/controller/failover/controller.go: the plan and its steps.
use mha_go.Base.{
  ℕ, Bool, true, false, not, ◌&&◌, ◌||◌, Text, codes, text_eq, List, [], ◌∷◌, ◌++◌, map, Option,
  none, some, is_nil, is_blank, trim_space, to_lower, if◌then◌else◌, find, any, length,
}
use mha_go.Domain.Spec.{ClusterSpec, NodeSpec, is_availability_first, is_observer}
use mha_go.Domain.View.{NodeState, ClusterView, is_dead}
use mha_go.Domain.Plan.{
  recover_from_old_primary_binlog, SalvageAction, StepName, acquire_lease, confirm_primary_dead,
  precheck_writer_endpoint, fence_old_primary, recover, promote_candidate, repoint_replicas,
  switch_writer_endpoint, verify_writer_endpoint, verify_cluster, StepStatus, FailoverStep,
  FailoverPlan,
}
use mha_go.Gtid.Recovery.{build_recovery_summary}
use mha_go.Topology.Assessment.{assess_replication, errors, warnings}
use mha_go.Failover.Readiness.{
  confirm_primary_failure, node_has_ssh_binlog_salvage, evaluate_promote_readiness,
  build_blocking_reasons,
}

-- The action that `addOldPrimaryBinlogSalvageAction` puts first.
abbrev pub binlog_action : ClusterSpec → NodeState → NodeState → SalvageAction
binlog_action spec old_primary c = record {
  kind = recover_from_old_primary_binlog;
  donor_node_id = old_primary.id;
  target_node_id = c.id;
  missing_gtid_set = [];
  required = not (is_availability_first spec.replication.salvage.policy);
  reason =
      codes
        "old primary GTID is unavailable; dump local binlogs over SSH and exclude candidate GTIDs";
}

abbrev pub same_route : Text → Text → SalvageAction → Bool
same_route donor target a = text_eq a.donor_node_id donor && text_eq a.target_node_id target

-- `addOldPrimaryBinlogSalvageAction`
unfoldable pub add_old_primary_binlog_salvage_action :
    ClusterSpec → NodeState → NodeState → List SalvageAction → List SalvageAction
add_old_primary_binlog_salvage_action spec old_primary c actions =
    if not (is_blank old_primary.gtid_executed)
      || (not (is_dead old_primary.health)
          || (is_blank c.gtid_executed
              || (not (node_has_ssh_binlog_salvage spec old_primary.id)
                  || any (same_route old_primary.id c.id) actions)))
    then actions
    else binlog_action spec old_primary c ∷ actions

-- `writerEndpointEnabled`
unfoldable pub writer_endpoint_enabled : Text → Bool
unfolding to_lower trim_space
writer_endpoint_enabled kind =
    let k = to_lower (trim_space kind) in
    not (is_nil k || (text_eq k (codes "none") || text_eq k (codes "off")))

-- `nodeStateByID`
unfoldable pub node_state_by_id : ClusterView → Text → Option NodeState
unfolding find
node_state_by_id view id = find (λ n. text_eq n.id id) view.nodes

abbrev pub is_known_dead : Option NodeState → Bool
is_known_dead none = false
is_known_dead (some n) = is_dead n.health

-- The nodes that a failover leaves alone.
abbrev pub is_exempt : Text → NodeSpec → Bool
is_exempt candidate_id n = text_eq n.id candidate_id || (n.no_master || is_observer n.expected_role)

-- `repointReplicaIDsForPlan`
unfoldable pub repoint_replica_ids : List NodeSpec → ClusterView → Text → List Text
repoint_replica_ids [] view candidate_id = []
repoint_replica_ids (n ∷ nodes) view candidate_id =
    let rest = repoint_replica_ids nodes view candidate_id in
    if is_exempt candidate_id n || is_known_dead (node_state_by_id view n.id)
    then rest
    else n.id ∷ rest

-- `skippedReplicaIDsForPlan`
unfoldable pub skipped_replica_ids : List NodeSpec → ClusterView → Text → List Text
skipped_replica_ids [] view candidate_id = []
skipped_replica_ids (n ∷ nodes) view candidate_id =
    let rest = skipped_replica_ids nodes view candidate_id in
    if not (is_exempt candidate_id n) && is_known_dead (node_state_by_id view n.id)
    then n.id ∷ rest
    else rest

-- `gateStatus`, `stepStatus` and `firstBlockingReason`
abbrev pub gate_status : Bool → StepStatus
gate_status permitted = if permitted then StepStatus.pending else StepStatus.blocked

abbrev pub step_status : Bool → StepStatus → StepStatus
step_status done blocked_status = if done then StepStatus.completed else blocked_status

abbrev pub first_blocking_reason : List Text → Text
first_blocking_reason [] = []
first_blocking_reason (r ∷ reasons) = r

-- A step that waits for the permission to execute.
abbrev pub gated : FailoverPlan → StepName → FailoverStep
gated plan name = record {
  name = name;
  status = gate_status plan.execution_permitted;
  blocking = not plan.execution_permitted;
  required = false;
  reason = first_blocking_reason plan.blocking_reasons;
}

abbrev pub salvage_step : FailoverPlan → SalvageAction → FailoverStep
salvage_step plan action = record {
  name = recover action.kind;
  status = gate_status plan.execution_permitted;
  blocking = not plan.execution_permitted && action.required;
  required = action.required;
  reason = action.reason;
}

abbrev pub promote_step : FailoverPlan → FailoverStep
promote_step plan = record {
  name = promote_candidate;
  status = gate_status (plan.promote_readiness_confirmed && plan.execution_permitted);
  blocking = not plan.promote_readiness_confirmed || not plan.execution_permitted;
  required = false;
  reason = first_blocking_reason (plan.promote_readiness_reasons ++ plan.blocking_reasons);
}

abbrev pub acquire_step : FailoverStep
acquire_step = record {
  name = acquire_lease;
  status = StepStatus.completed;
  blocking = false;
  required = false;
  reason = [];
}

abbrev pub confirm_step : FailoverPlan → FailoverStep
confirm_step plan = record {
  name = confirm_primary_dead;
  status = step_status plan.primary_failure_confirmed StepStatus.blocked;
  blocking = not plan.primary_failure_confirmed;
  required = false;
  reason = plan.primary_failure_reason;
}

abbrev pub steps_if : Bool → List FailoverStep → List FailoverStep
steps_if test steps = if test then steps else []

-- `buildExecutionSteps`
unfoldable pub build_execution_steps : FailoverPlan → List FailoverStep
build_execution_steps plan =
    acquire_step
    ∷ confirm_step plan
    ∷ (steps_if plan.requires_writer_endpoint_switch (gated plan precheck_writer_endpoint ∷ [])
        ++ (steps_if plan.requires_fencing (gated plan fence_old_primary ∷ [])
            ++ (map (salvage_step plan) plan.salvage_actions
                ++ (promote_step plan
                    ∷ gated plan repoint_replicas
                    ∷ (steps_if plan.requires_writer_endpoint_switch (
                          gated plan switch_writer_endpoint
                          ∷ gated plan verify_writer_endpoint
                          ∷ [])
                        ++ (gated plan verify_cluster ∷ []))))))

-- "failover/" and the cluster's name.
unfoldable pub failover_lease_key : ClusterSpec → Text
failover_lease_key spec = codes "failover/" ++ spec.name

-- The plan of `BuildPlan`, before `plan.Steps` is set.
unfoldable pub plan_without_steps :
    ClusterSpec → ClusterView → NodeState → NodeState → ℕ → FailoverPlan
unfolding failover_lease_key
plan_without_steps spec view old_primary c now =
    let policy = spec.replication.salvage.policy in
    let assessment = assess_replication spec view in
    let recovery = build_recovery_summary view old_primary c policy in
    let actions =
      add_old_primary_binlog_salvage_action spec old_primary c recovery.salvage_actions in
    let (confirmed, failure) = confirm_primary_failure old_primary in
    let readiness = evaluate_promote_readiness spec old_primary c in
    let blocking =
      build_blocking_reasons spec old_primary c assessment recovery confirmed readiness in
    record {
      cluster_name = spec.name;
      created_at = now;
      old_primary = old_primary;
      candidate = c;
      lease_key = failover_lease_key spec;
      lease_owner = spec.controller.id;
      primary_failure_confirmed = confirmed;
      primary_failure_reason = failure;
      promote_readiness_confirmed = is_nil readiness;
      promote_readiness_reasons = readiness;
      execution_permitted = is_nil blocking;
      blocking_reasons = blocking;
      assessment_errors = length (errors assessment);
      assessment_warnings = length (warnings assessment);
      candidate_freshness_score = recovery.candidate_freshness_score;
      candidate_most_advanced = recovery.candidate_most_advanced;
      salvage_policy = policy;
      should_attempt_salvage = not (is_nil actions);
      missing_from_primary_known = recovery.missing_from_primary_known;
      missing_from_primary_gtid_set = recovery.missing_from_primary_set;
      recovery_gaps = recovery.recovery_gaps;
      salvage_actions = actions;
      suggested_donor_ids = recovery.suggested_donor_ids;
      steps = [];
      requires_fencing = true;
      requires_writer_endpoint_switch = writer_endpoint_enabled spec.writer_endpoint.kind;
      repoint_replica_ids = some (repoint_replica_ids spec.nodes view c.id);
      skipped_replica_ids = skipped_replica_ids spec.nodes view c.id;
    }

unfoldable pub make_plan : ClusterSpec → ClusterView → NodeState → NodeState → ℕ → FailoverPlan
unfolding plan_without_steps
make_plan spec view old_primary c now =
    let plan = plan_without_steps spec view old_primary c now in
    record plan { steps = build_execution_steps plan }
