-- ===== src/Failover/Verify.antt =====
-- `VerifyPostFailover` of internal/controller/failover/verify.go.
pub mod Verified
mod Tests
use mha_go.Base.{
  ℕ, ℤ, Bool, true, false, not, ◌&&◌, ◌||◌, Text, codes, text_eq, List, [], ◌∷◌, ◌++◌, is_nil, any,
  has_text, print_int, print_bool, Option, none, some, if◌then◌else◌, Result, ok, err, map_err,
  ◌>>=◌,
}
use mha_go.Domain.Spec.{ClusterSpec, NodeSpec, is_observer}
use mha_go.Domain.View.{is_dead}
use mha_go.Domain.Plan.{FailoverPlan}
use mha_go.Domain.Inspection.{
  Inspection, ReplicaChannelStatus, node_spec_by_id, replica_points_to_node, or_error,
  host_port_text, no_node_text, inspect_text,
}

-- The tests of the promoted candidate behind its inspection.
unfoldable pub check_candidate : Text → Inspection → Result Text Unit
check_candidate id i =
    if i.read_only || i.super_read_only
    then err (codes "candidate " ++ (id ++ codes " is still read-only after promotion"))
    else if not (is_nil i.replica_channels)
    then err (
        codes "candidate "
        ++ (id ++ codes " still has replica channels after promotion (expected none)"))
    else ok tt

-- The tests of the first channel of another node.
unfoldable pub check_channel : Text → Text → NodeSpec → List ReplicaChannelStatus → Result Text Unit
unfolding host_port_text replica_points_to_node
check_channel id candidate_id candidate [] = err (
    codes "node "
    ++ (id
        ++ (codes " has no replica channel after failover (expected to replicate from "
            ++ (candidate_id ++ codes ")"))))
check_channel id candidate_id candidate (ch ∷ channels) =
    if not (replica_points_to_node ch candidate)
    then err (
        codes "node "
        ++ (id
            ++ (codes " replication source "
                ++ (host_port_text ch.source_host ch.source_port
                    ++ (codes " does not match candidate "
                        ++ host_port_text candidate.host candidate.port)))))
    else if not ch.auto_position
    then err (codes "node " ++ (id ++ codes " replication is not using auto-position"))
    else if not ch.io_thread_running || not ch.sql_thread_running
    then err (
        codes "node "
        ++ (id
            ++ (codes " replication threads not running (io="
                ++ (print_bool ch.io_thread_running
                    ++ (codes " sql=" ++ (print_bool ch.sql_thread_running ++ codes ")"))))))
    else ok tt

-- The nodes that the loop passes over; `stringInSlice` is `has_text`.
abbrev pub is_passed_over : FailoverPlan → NodeSpec → Bool
is_passed_over plan n =
    text_eq n.id plan.candidate.id
    || (is_observer n.expected_role
        || (n.no_master
            || ((text_eq n.id plan.old_primary.id && is_dead plan.old_primary.health)
                || has_text n.id plan.skipped_replica_ids)))

-- The inspector is the argument of this section.
module _ (inspect : NodeSpec → Result Text Inspection) (plan : FailoverPlan) where
  unfoldable pub check_node : NodeSpec → NodeSpec → Result Text Unit
  unfolding check_channel inspect_text
  check_node candidate n = do
    i ← map_err (inspect_text (codes "node") n.id) (inspect n)
    check_channel n.id plan.candidate.id candidate i.replica_channels

  -- The loop over `spec.Nodes`.
  unfoldable pub check_nodes : NodeSpec → List NodeSpec → Result Text Unit
  unfolding check_node text_eq has_text
  check_nodes candidate [] = ok tt
  check_nodes candidate (n ∷ rest) =
      let others = check_nodes candidate rest in
      if is_passed_over plan n then others else (do passed ← check_node candidate n; others)

  -- `VerifyPostFailover`
  unfoldable pub verify_post_failover : ClusterSpec → Result Text Unit
  unfolding node_spec_by_id no_node_text check_candidate check_nodes inspect_text
  verify_post_failover spec = do
    candidate ←
        or_error (no_node_text plan.candidate.id (codes "candidate"))
          (node_spec_by_id spec plan.candidate.id)
    new ← map_err (inspect_text (codes "candidate") plan.candidate.id) (inspect candidate)
    checked ← check_candidate plan.candidate.id new
    check_nodes candidate spec.nodes
