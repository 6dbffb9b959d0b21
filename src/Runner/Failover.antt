-- ===== src/Runner/Failover.antt =====
-- `RepointReplicas` of internal/controller/failover/mysql_runner.go, which lists the replicas that it
-- cannot repoint in the plan.
pub mod Handled
use mha_go.Base.{
  Bool, true, false, not, ◌&&◌, ◌||◌, map, keep, sort_texts, Text, codes, text_eq, has_text, List,
  [], ◌∷◌, ◌++◌, Option, none, some, if◌then◌else◌, Result, ok, err,
}
use mha_go.Domain.Spec.{ClusterSpec, NodeSpec, is_observer, replication_password_ref_or_default}
use mha_go.Domain.View.{is_dead}
use mha_go.Domain.Plan.{FailoverPlan}
use mha_go.Domain.Inspection.{node_spec_by_id, or_error, no_node_text}
use mha_go.Runner.{
  SqlOp, SqlError, open_db, resolve_password, repoint_to_source, SqlLog, Servers, Act, give, from,
  ◌>>=◌, ask,
}

-- `appendIfMissing`
unfoldable pub append_if_missing : List Text → Text → List Text
unfolding has_text
append_if_missing values value = if has_text value values then values else values ++ (value ∷ [])

-- `repointReplicaNodeIDs`
unfoldable pub repoint_replica_node_ids : ClusterSpec → Text → List Text
unfolding keep text_eq sort_texts
repoint_replica_node_ids spec candidate_id = sort_texts (
    map (λ (n : NodeSpec). n.id)
      (keep (λ n. not (text_eq n.id candidate_id || (n.no_master || is_observer n.expected_role)))
        spec.nodes))

abbrev pub ids_or : List Text → Option (List Text) → List Text
ids_or fallback none = fallback
ids_or fallback (some ids) = ids

-- The plan's replicas, or those of the configuration where the plan has no list.
unfoldable pub replicas_to_repoint : ClusterSpec → FailoverPlan → List Text
unfolding repoint_replica_node_ids
replicas_to_repoint spec plan =
    ids_or (repoint_replica_node_ids spec plan.candidate.id) plan.repoint_replica_ids

-- The skipped replicas and the log.
abbrev pub Repointing : Type 0
Repointing = List Text × SqlLog

module _ (servers : Servers) (spec : ClusterSpec) (plan : FailoverPlan) where
  -- The old primary, if it is dead.
  abbrev pub is_dead_old_primary : Text → Bool
  is_dead_old_primary id = text_eq id plan.old_primary.id && is_dead plan.old_primary.health

  module _ (candidate : NodeSpec) (password : Text) where
    abbrev pub after_repoint : Text → List Text → SqlLog → Result SqlError Text → Repointing
    after_repoint id skipped t (err e) = (append_if_missing skipped id, t)
    after_repoint id skipped t (ok a) = (skipped, t)

    abbrev pub after_open : Text → NodeSpec → List Text → SqlLog → Result SqlError Text → Repointing
    after_open id ns skipped t (err e) = (append_if_missing skipped id, t)
    after_open id ns skipped t (ok a) =
        let op = repoint_to_source ns candidate password in
        after_repoint id skipped (t ++ ((op, servers t op) ∷ [])) (servers t op)

    -- One round of the loop, with the node that has the id.
    unfoldable pub repoint_node : Text → Option NodeSpec → Repointing → Repointing
    unfolding text_eq append_if_missing
    repoint_node id none (skipped, t) = (skipped, t)
    repoint_node id (some ns) (skipped, t) =
        if is_dead_old_primary id
        then (skipped, t)
        else after_open id ns skipped (t ++ ((open_db ns, servers t (open_db ns)) ∷ []))
            (servers t (open_db ns))

    -- The loop over the ids.
    unfoldable pub repoint_nodes : List Text → Repointing → Repointing
    unfolding repoint_node node_spec_by_id
    repoint_nodes [] r = r
    repoint_nodes (id ∷ ids) r = repoint_nodes ids (repoint_node id (node_spec_by_id spec id) r)

    abbrev pub returned : Repointing → Result Text (List Text) × SqlLog
    returned (skipped, t) = (ok skipped, t)

  -- `RepointReplicas`: the plan's skipped replicas as they are behind it.
  unfoldable pub repoint_replicas : Act (List Text)
  unfolding node_spec_by_id no_node_text ask replicas_to_repoint repoint_nodes
  repoint_replicas = do
    candidate ← from (
        or_error (no_node_text plan.candidate.id (codes "candidate"))
          (node_spec_by_id spec plan.candidate.id))
    password ←
        ask servers (λ e. codes "resolve replication password for candidate: " ++ e)
          (resolve_password (replication_password_ref_or_default candidate.sql))
    (λ t. returned candidate password (
        repoint_nodes candidate password (replicas_to_repoint spec plan)
          (plan.skipped_replica_ids, t)))
