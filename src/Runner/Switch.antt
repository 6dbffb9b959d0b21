-- ===== src/Runner/Switch.antt =====
-- `MySQLActionRunner` of internal/controller/switchover/actions.go, less the methods that only call the
-- writer endpoint or the verification.
pub mod Caught
pub mod Repointed
use mha_go.Base.{
  ℤ, pos, leb_ℤ, Bool, true, false, not, ◌||◌, Text, codes, text_eq, List, [], ◌∷◌, ◌++◌, keep, map,
  sort_texts, Option, none, some, if◌then◌else◌, Result, ok, err,
}
use mha_go.Domain.Spec.{ClusterSpec, NodeSpec, is_observer, replication_password_ref_or_default}
use mha_go.Domain.View.{CapabilitySet, NodeState}
use mha_go.Domain.Switchover.{SwitchoverPlan}
use mha_go.Domain.Inspection.{node_spec_by_id, or_error, no_node_text, inspect_text}
use mha_go.Config.Parts.{seconds}
use mha_go.Runner.{
  SqlOp, open_db, fence_read_only, stable_gtid, wait_executed, promote_replica, resolve_password,
  repoint_to_source, SqlError, failed, degraded, Servers, Act, give, fail, from, ◌>>=◌, try, ask,
}

-- `repointReplicaNodeIDs`
abbrev pub is_repointed : Text → Text → NodeSpec → Bool
is_repointed candidate_id primary_id n = not (
    (text_eq n.id candidate_id || text_eq n.id primary_id)
    || (n.no_master || is_observer n.expected_role))

unfoldable pub repoint_replica_node_ids : ClusterSpec → Text → Text → List Text
unfolding keep text_eq sort_texts
repoint_replica_node_ids spec candidate_id primary_id =
    sort_texts
      (map (λ (n : NodeSpec). n.id) (keep (is_repointed candidate_id primary_id) spec.nodes))

-- "connect to … "id"…: error"
unfoldable pub connect_text : Text → Text → Text → Text → Text
connect_text what id purpose e =
    codes "connect to "
    ++ (what ++ (codes " \"" ++ (id ++ (codes "\"" ++ (purpose ++ (codes ": " ++ e))))))

unfoldable pub repoint_text : Text → Text → Text → Text → Text
repoint_text what id purpose e =
    codes "repoint "
    ++ (what ++ (codes " \"" ++ (id ++ (codes "\"" ++ (purpose ++ (codes ": " ++ e))))))

-- `if timeout <= 0 { timeout = 60 * time.Second }`
abbrev pub wait_timeout : ClusterSpec → ℤ
wait_timeout spec =
    if leb_ℤ spec.replication.salvage.timeout (pos 0)
    then seconds 60
    else spec.replication.salvage.timeout

-- What `FenceReadOnly` returned: a degraded fence is only logged.
abbrev pub fence_result : Result SqlError Text → Act Unit
fence_result (ok a) = give tt
fence_result (err (degraded e)) = give tt
fence_result (err (failed e)) = fail e

module _ (servers : Servers) (spec : ClusterSpec) (plan : SwitchoverPlan) where
  abbrev pub spec_of : Text → Text → Act NodeSpec
  spec_of id role = from (or_error (no_node_text id role) (node_spec_by_id spec id))

  unfoldable pub lock : NodeState → Text → Act Unit
  unfolding node_spec_by_id no_node_text connect_text ask try
  lock node role = do
    ns ← spec_of node.id role
    db ← ask servers (connect_text role node.id []) (open_db ns)
    answer ← try servers (fence_read_only ns node.capabilities)
    fence_result answer

  -- `LockCandidate`
  unfoldable pub lock_candidate : Act Unit
  unfolding lock
  lock_candidate = lock plan.candidate (codes "candidate")

  -- `LockOldPrimary`
  unfoldable pub lock_old_primary : Act Unit
  unfolding lock
  lock_old_primary = lock plan.original_primary (codes "original primary")

  -- `WaitCandidateCatchUp`
  unfoldable pub wait_candidate_catch_up : Act Unit
  unfolding node_spec_by_id no_node_text connect_text ask
  wait_candidate_catch_up = do
    original ← spec_of plan.original_primary.id (codes "original primary")
    db ←
        ask servers
          (connect_text (codes "original primary") plan.original_primary.id
            (codes " for GTID fetch"))
          (open_db original)
    gtid ←
        ask servers (λ e. codes "wait for stable gtid_executed from original primary: " ++ e)
          (stable_gtid original (wait_timeout spec))
    candidate ← spec_of plan.candidate.id (codes "candidate")
    db' ←
        ask servers
          (connect_text (codes "candidate") plan.candidate.id (codes " for catch-up wait"))
          (open_db candidate)
    waited ← ask servers (λ e. e) (wait_executed candidate gtid (wait_timeout spec))
    give tt

  -- `PromoteCandidate`
  unfoldable pub promote_candidate : Act Unit
  unfolding node_spec_by_id no_node_text connect_text ask
  promote_candidate = do
    ns ← spec_of plan.candidate.id (codes "candidate")
    db ← ask servers (connect_text (codes "candidate") plan.candidate.id []) (open_db ns)
    promoted ← ask servers (λ e. e) (promote_replica ns)
    give tt

  -- `ResolvePassword` for the new primary.
  unfoldable pub source_password : NodeSpec → Act Text
  unfolding ask
  source_password candidate =
      ask servers (λ e. codes "resolve replication password for new primary: " ++ e)
        (resolve_password (replication_password_ref_or_default candidate.sql))

  -- `RepointReplicaToSource` on a connection of its own, with what wraps the errors of the two.
  unfoldable pub repoint : (Text → Text) → (Text → Text) → NodeSpec → Text → NodeSpec → Act Unit
  unfolding ask
  repoint no_connection not_repointed candidate password ns = do
    db ← ask servers no_connection (open_db ns)
    repointed ← ask servers not_repointed (repoint_to_source ns candidate password)
    give tt

  abbrev pub repoint_known : NodeSpec → Text → Text → Option NodeSpec → Act Unit
  repoint_known candidate password id none = give tt
  repoint_known candidate password id (some ns) =
      repoint (connect_text (codes "replica") id (codes " for repoint"))
        (repoint_text (codes "replica") id []) candidate password ns

  -- The loop over the ids.
  unfoldable pub repoint_ids : NodeSpec → Text → List Text → Act Unit
  unfolding repoint node_spec_by_id connect_text repoint_text
  repoint_ids candidate password [] = give tt
  repoint_ids candidate password (id ∷ ids) = do
    repointed ← repoint_known candidate password id (node_spec_by_id spec id)
    repoint_ids candidate password ids

  -- `RepointReplicas`
  unfoldable pub repoint_replicas : Act Unit
  unfolding node_spec_by_id no_node_text source_password repoint_ids repoint_replica_node_ids
  repoint_replicas = do
    candidate ← spec_of plan.candidate.id (codes "candidate")
    password ← source_password candidate
    repoint_ids candidate password
        (repoint_replica_node_ids spec plan.candidate.id plan.original_primary.id)

  -- `RepointOldPrimary`
  unfoldable pub repoint_old_primary : Act Unit
  unfolding node_spec_by_id no_node_text source_password repoint connect_text repoint_text
  repoint_old_primary = do
    candidate ← spec_of plan.candidate.id (codes "candidate")
    password ← source_password candidate
    original ← spec_of plan.original_primary.id (codes "original primary")
    repoint
        (connect_text (codes "original primary") plan.original_primary.id (codes " for repoint"))
        (repoint_text (codes "old primary") plan.original_primary.id (codes " to new primary"))
        candidate password original
