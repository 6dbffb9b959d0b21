-- ===== src/Switchover/Plan.antt =====
-- `BuildPlan` of internal/controller/switchover/controller.go.
use mha_go.Base.{
  ℕ, Bool, not, ◌&&◌, ◌||◌, Text, codes, text_eq, List, [], ◌∷◌, ◌++◌, length, is_nil, any,
  trim_space, to_lower, print_uint, Option, none, some, if◌then◌else◌, Result, ok, err, map_err,
  ◌>>=◌,
}
use mha_go.Domain.Spec.{ClusterSpec, NodeSpec, is_observer}
use mha_go.Domain.View.{ClusterView, NodeState, primary_node}
use mha_go.Domain.Switchover.{SwitchStep, SwitchStatus, SwitchoverStep, SwitchoverPlan}
use mha_go.Topology.Assessment.{Finding, errors, has_errors, assess_replication}
use mha_go.Gtid.Print.{subtract_texts}
use mha_go.Gtid.Parse.Message.{parse_error_text}

-- `candidateErrantGTID`; the texts of its errors.
unfoldable pub candidate_errant_gtid : NodeState → NodeState → Result Text Text
unfolding subtract_texts parse_error_text trim_space
candidate_errant_gtid primary candidate =
    let candidate_gtid = trim_space candidate.gtid_executed in
    let primary_gtid = trim_space primary.gtid_executed in
    if is_nil candidate_gtid
    then ok []
    else if is_nil primary_gtid
    then err (codes "original primary GTID is unavailable")
    else (do
      errant_gtid ← map_err parse_error_text (subtract_texts candidate_gtid primary_gtid)
      ok (trim_space errant_gtid))

-- `writerEndpointEnabled`
unfoldable pub endpoint_enabled : Text → Bool
unfolding to_lower trim_space text_eq
endpoint_enabled kind =
    let k = to_lower (trim_space kind) in
    not (is_nil k || (text_eq k (codes "none") || text_eq k (codes "off")))

abbrev pub pending_step : SwitchStep → SwitchoverStep
pending_step name = record { name = name; status = SwitchStatus.pending }

abbrev pub skipped_step : SwitchStep → SwitchoverStep
skipped_step name = record { name = name; status = SwitchStatus.skipped }

-- A replica that has to be repointed.
abbrev pub is_other_replica : Text → Text → NodeSpec → Bool
is_other_replica candidate_id primary_id n =
    not (text_eq n.id candidate_id || (text_eq n.id primary_id || n.no_master))
    && not (is_observer n.expected_role)

-- The loop over `spec.Nodes` in `buildSwitchoverSteps`.
unfoldable pub has_other_replicas : ClusterSpec → Text → Text → Bool
unfolding any
has_other_replicas spec candidate_id primary_id =
    any (is_other_replica candidate_id primary_id) spec.nodes

-- `buildSwitchoverSteps`
unfoldable pub build_switchover_steps : ClusterSpec → Text → Text → Bool → List SwitchoverStep
unfolding has_other_replicas
build_switchover_steps spec candidate_id primary_id requires_endpoint_switch =
    (if requires_endpoint_switch then pending_step SwitchStep.precheck_writer_endpoint ∷ [] else [])
    ++ (pending_step SwitchStep.lock_candidate
        ∷ pending_step SwitchStep.lock_old_primary
        ∷ pending_step SwitchStep.wait_candidate_catchup
        ∷ pending_step SwitchStep.promote_candidate
        ∷ (if has_other_replicas spec candidate_id primary_id
            then pending_step SwitchStep.repoint_replicas
            else skipped_step SwitchStep.repoint_replicas)
        ∷ pending_step SwitchStep.repoint_old_primary
        ∷ ((if requires_endpoint_switch
              then pending_step SwitchStep.switch_writer_endpoint
                ∷ pending_step SwitchStep.verify_writer_endpoint
                ∷ []
              else skipped_step SwitchStep.switch_writer_endpoint ∷ [])
            ++ (pending_step SwitchStep.verify ∷ [])))

unfoldable pub errors_text : List Finding → Text
unfolding errors
errors_text findings =
    codes "switchover precheck failed: "
    ++ (print_uint (length (errors findings)) ++ codes " assessment errors")

unfoldable pub no_primary_text : ClusterSpec → Text
no_primary_text spec =
    codes "cluster \"" ++ (spec.name ++ codes "\" has no primary in the discovered view")

unfoldable pub unreadable_text : NodeState → Text → Text
unreadable_text candidate e =
    codes "switchover precheck failed: validate writable candidate "
    ++ (candidate.id ++ (codes " GTID: " ++ e))

unfoldable pub errant_text : NodeState → NodeState → Text → Text
errant_text primary candidate errant_gtid =
    codes "switchover precheck failed: writable candidate "
    ++ (candidate.id
        ++ (codes " has errant GTIDs not present on original primary "
            ++ (primary.id ++ (codes ": " ++ errant_gtid))))

abbrev pub no_errant : NodeState → NodeState → Result Text Text → Result Text Unit
no_errant primary candidate (err e) = err (unreadable_text candidate e)
no_errant primary candidate (ok errant_gtid) =
    if is_nil errant_gtid then ok tt else err (errant_text primary candidate errant_gtid)

-- The test of the candidate's transactions, which is made where the candidate takes writes.
unfoldable pub writable_candidate_check : NodeState → NodeState → Result Text Unit
unfolding candidate_errant_gtid unreadable_text errant_text
writable_candidate_check primary candidate =
    if not candidate.read_only || not candidate.super_read_only
    then no_errant primary candidate (candidate_errant_gtid primary candidate)
    else ok tt

unfoldable pub plan_of : ClusterSpec → NodeState → NodeState → ℕ → SwitchoverPlan
unfolding endpoint_enabled build_switchover_steps
plan_of spec primary candidate now =
    let requires_endpoint_switch = endpoint_enabled spec.writer_endpoint.kind in
    record {
      cluster_name = spec.name;
      created_at = now;
      original_primary = primary;
      candidate = candidate;
      requires_writer_endpoint_switch = requires_endpoint_switch;
      steps = build_switchover_steps spec candidate.id primary.id requires_endpoint_switch;
    }

abbrev pub primary_or_err : ClusterSpec → Option NodeState → Result Text NodeState
primary_or_err spec none = err (no_primary_text spec)
primary_or_err spec (some n) = ok n

-- The candidate selector and the time are the arguments of this section.
module _ (spec : ClusterSpec) (select : ClusterView → Result Text NodeState) (now : ℕ) where
  -- What `BuildPlan` makes of a discovered view.
  unfoldable pub plan_for : ClusterView → Result Text SwitchoverPlan
  unfolding has_errors errors_text assess_replication primary_node no_primary_text
      writable_candidate_check plan_of
  plan_for view =
      if has_errors (assess_replication spec view)
      then err (errors_text (assess_replication spec view))
      else (do
        primary ← primary_or_err spec (primary_node view)
        candidate ← select view
        passed ← writable_candidate_check primary candidate
        ok (plan_of spec primary candidate now))
