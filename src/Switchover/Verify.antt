-- ===== src/Switchover/Verify.antt =====
-- `VerifyPostSwitchover` of internal/controller/switchover/verify.go.
use mha_go.Base.{
  Bool, not, ◌||◌, Text, codes, text_eq, List, [], ◌∷◌, ◌++◌, is_nil, print_bool, if◌then◌else◌,
  Result, ok, err, map_err, ◌>>=◌,
}
use mha_go.Domain.Spec.{ClusterSpec, NodeSpec, is_observer}
use mha_go.Domain.Switchover.{SwitchoverPlan}
use mha_go.Domain.Inspection.{
  Inspection, ReplicaChannelStatus, node_spec_by_id, replica_points_to_node, or_error,
  host_port_text, no_node_text, inspect_text,
}

-- The tests of the new primary behind its inspection.
unfoldable pub check_new_primary : Text → Inspection → Result Text Unit
check_new_primary id i =
    if i.read_only || i.super_read_only
    then err (codes "new primary " ++ (id ++ codes " is still read-only after promotion"))
    else if not (is_nil i.replica_channels)
    then err (codes "new primary " ++ (id ++ codes " still has replica channels after promotion"))
    else ok tt

-- The tests of the first channel of the old primary.
unfoldable pub check_old_channel :
    Text → Text → NodeSpec → List ReplicaChannelStatus → Result Text Unit
unfolding host_port_text replica_points_to_node
check_old_channel id candidate_id candidate [] = err (
    codes "old primary "
    ++ (id
        ++ (codes " has no replica channel (expected to replicate from "
            ++ (candidate_id ++ codes ")"))))
check_old_channel id candidate_id candidate (ch ∷ channels) =
    if not (replica_points_to_node ch candidate)
    then err (
        codes "old primary "
        ++ (id
            ++ (codes " replicates from "
                ++ (host_port_text ch.source_host ch.source_port
                    ++ (codes ", expected new primary "
                        ++ host_port_text candidate.host candidate.port)))))
    else ok tt

unfoldable pub check_old_primary : Text → Text → NodeSpec → Inspection → Result Text Unit
unfolding check_old_channel
check_old_primary id candidate_id candidate i =
    if not i.read_only
    then err (codes "old primary " ++ (id ++ codes " is still writable after switchover"))
    else check_old_channel id candidate_id candidate i.replica_channels

-- The tests of the first channel of another replica.
unfoldable pub check_channel : Text → Text → NodeSpec → List ReplicaChannelStatus → Result Text Unit
unfolding host_port_text replica_points_to_node
check_channel id candidate_id candidate [] = err (
    codes "replica "
    ++ (id
        ++ (codes " has no channel after switchover (expected to replicate from "
            ++ (candidate_id ++ codes ")"))))
check_channel id candidate_id candidate (ch ∷ channels) =
    if not (replica_points_to_node ch candidate)
    then err (
        codes "replica "
        ++ (id
            ++ (codes " source "
                ++ (host_port_text ch.source_host ch.source_port
                    ++ (codes " does not match new primary "
                        ++ host_port_text candidate.host candidate.port)))))
    else if not ch.auto_position
    then err (codes "replica " ++ (id ++ codes " replication is not using auto-position"))
    else if not ch.io_thread_running || not ch.sql_thread_running
    then err (
        codes "replica "
        ++ (id
            ++ (codes " replication threads not running (io="
                ++ (print_bool ch.io_thread_running
                    ++ (codes " sql=" ++ (print_bool ch.sql_thread_running ++ codes ")"))))))
    else ok tt

-- The nodes that the loop passes over.
abbrev pub is_passed_over : SwitchoverPlan → NodeSpec → Bool
is_passed_over plan n =
    (text_eq n.id plan.candidate.id || text_eq n.id plan.original_primary.id)
    || (is_observer n.expected_role || n.no_master)

-- The inspector is the argument of this section.
module _ (inspect : NodeSpec → Result Text Inspection) (plan : SwitchoverPlan) where
  unfoldable pub check_replica : NodeSpec → NodeSpec → Result Text Unit
  unfolding check_channel inspect_text
  check_replica candidate n = do
    i ← map_err (inspect_text (codes "replica") n.id) (inspect n)
    check_channel n.id plan.candidate.id candidate i.replica_channels

  -- The loop over `spec.Nodes`.
  unfoldable pub check_replicas : NodeSpec → List NodeSpec → Result Text Unit
  unfolding check_replica text_eq
  check_replicas candidate [] = ok tt
  check_replicas candidate (n ∷ rest) =
      let others = check_replicas candidate rest in
      if is_passed_over plan n then others else (do passed ← check_replica candidate n; others)

  -- `VerifyPostSwitchover`
  unfoldable pub verify_post_switchover : ClusterSpec → Result Text Unit
  unfolding node_spec_by_id no_node_text check_new_primary check_old_primary check_replicas
      inspect_text
  verify_post_switchover spec = do
    candidate ←
        or_error (no_node_text plan.candidate.id (codes "candidate"))
          (node_spec_by_id spec plan.candidate.id)
    new ← map_err (inspect_text (codes "new primary") plan.candidate.id) (inspect candidate)
    checked ← check_new_primary plan.candidate.id new
    original ←
        or_error (no_node_text plan.original_primary.id (codes "original primary"))
          (node_spec_by_id spec plan.original_primary.id)
    old ← map_err (inspect_text (codes "old primary") plan.original_primary.id) (inspect original)
    checked' ← check_old_primary plan.original_primary.id plan.candidate.id candidate old
    check_replicas candidate spec.nodes
