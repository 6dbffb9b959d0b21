-- ===== src/Failover/Readiness.antt =====
-- The checks of internal/controller/failover/controller.go that decide whether a failover may run.
use mha_go.Base.{
  pos, ltb_ℤ, Bool, true, false, not, ◌&&◌, ◌||◌, Text, codes, text_eq, has_text, List, [], ◌∷◌,
  ◌++◌, Option, none, some, is_nil, is_blank, if◌then◌else◌, find,
}
use mha_go.Domain.Spec.{
  ClusterSpec, NodeSpec, SshTargetSpec, is_strict_or_unset, is_availability_first, is_if_possible,
}
use mha_go.Domain.View.{NodeState, ReplicaState, NodeHealth, is_dead}
use mha_go.Topology.Codes.{code_text}
use mha_go.Topology.Assessment.{
  Assessment, Finding, FindingCode, errors, primary_unhealthy, replica_dead,
}
use mha_go.Gtid.Recovery.{RecoverySummary}

-- A format string with one and with two arguments: the texts before, between and behind them.
unfoldable pub sprintf1 : Text → Text → Text → Text
sprintf1 before arg behind = before ++ (arg ++ behind)

unfoldable pub sprintf2 : Text → Text → Text → Text → Text
sprintf2 before arg between arg' = before ++ (arg ++ (between ++ arg'))

-- The loop of `dedupeStrings`; `seen` holds what has been kept.
unfoldable pub dedupe : List Text → List Text → List Text
unfolding has_text
dedupe seen [] = []
dedupe seen (s ∷ l) =
    let fresh = s ∷ dedupe (s ∷ seen) l in
    let rest = dedupe seen l in if has_text s seen then rest else fresh

unfoldable pub dedupe_strings : List Text → List Text
unfolding dedupe
dedupe_strings = dedupe []

unfoldable pub failure_reason : NodeHealth → Text
failure_reason NodeHealth.dead = codes "primary health is dead in the discovered topology"
failure_reason NodeHealth.suspect = codes "primary is only suspect; failure is not confirmed"
failure_reason NodeHealth.alive = codes "primary is still reachable"
failure_reason NodeHealth.unknown = codes "primary health is unknown"

-- `confirmPrimaryFailure`
unfoldable pub confirm_primary_failure : NodeState → Bool × Text
confirm_primary_failure p = (is_dead p.health, failure_reason p.health)

-- An `if` whose body appends one reason.
abbrev pub reason_if : Bool → Text → List Text
reason_if test reason = if test then reason ∷ [] else []

unfoldable pub candidate_text : Text → Text → Text
candidate_text id behind = sprintf1 (codes "candidate ") id behind

-- The `return reasons` of a candidate that has no replica state.
unfoldable pub no_replica_state : Text → Text
no_replica_state id = candidate_text id (codes " has no replica state")

abbrev pub sources_elsewhere : ClusterSpec → NodeState → ReplicaState → Bool
sources_elsewhere spec old_primary r =
    not spec.topology.allow_cascading_replicas
    && (not (is_nil r.source_id) && not (text_eq r.source_id old_primary.id))

-- The reasons of `evaluatePromoteReadiness` about the replica state.
unfoldable pub readiness_reasons : ClusterSpec → NodeState → NodeState → ReplicaState → List Text
readiness_reasons spec old_primary c r =
    reason_if (not r.auto_position) (candidate_text c.id (codes " auto-position is disabled"))
    ++ (reason_if (not r.sql_thread_running)
          (candidate_text c.id (codes " SQL thread is not running"))
        ++ (reason_if (is_nil r.source_id) (candidate_text c.id (codes " source is unknown"))
            ++ (reason_if (sources_elsewhere spec old_primary r) (
                  sprintf2 (codes "candidate ") c.id
                    (codes " is not directly replicating from the old primary ") old_primary.id)
                ++ (reason_if (not c.read_only || not c.super_read_only)
                      (candidate_text c.id (codes " is writable before promotion"))
                    ++ reason_if (r.io_thread_running && ltb_ℤ r.seconds_behind_source (pos 0))
                        (candidate_text c.id (codes " lag is unknown"))))))

-- Behind the check of the candidate's health; with no replica state it returns early.
unfoldable pub readiness_behind :
    ClusterSpec → NodeState → NodeState → List Text → Option ReplicaState → List Text
unfolding readiness_reasons
readiness_behind spec old_primary c first none = first ++ (no_replica_state c.id ∷ [])
readiness_behind spec old_primary c first (some r) =
    dedupe_strings (first ++ readiness_reasons spec old_primary c r)

-- `evaluatePromoteReadiness`
unfoldable pub evaluate_promote_readiness : ClusterSpec → NodeState → NodeState → List Text
evaluate_promote_readiness spec old_primary c =
    readiness_behind spec old_primary c
      (reason_if (is_dead c.health) (candidate_text c.id (codes " is unreachable"))) c.replica

abbrev pub has_ssh_user : Option SshTargetSpec → Bool
has_ssh_user none = false
has_ssh_user (some s) =
    not (is_blank s.user) && (not (is_blank s.password_ref) || not (is_blank s.private_key_ref))

-- `nodeHasSSHBinlogSalvage`
unfoldable pub node_has_ssh_binlog_salvage : ClusterSpec → Text → Bool
unfolding find
node_has_ssh_binlog_salvage spec id = elim (find (λ (n : NodeSpec). text_eq n.id id) spec.nodes) [
  | none ↦ false
  | some n ↦ has_ssh_user n.ssh
]

-- The `switch finding.Code`: whether the finding is passed over.
abbrev pub is_expected_code : FindingCode → Text → Text → Bool
is_expected_code primary_unhealthy node_id candidate_id = true
is_expected_code replica_dead node_id candidate_id = not (text_eq node_id candidate_id)
is_expected_code _ node_id candidate_id = false

-- Whether an assessment error blocks the failover.
unfoldable pub is_relevant : Text → Text → Finding → Bool
is_relevant candidate_id old_id f =
    not (
      not (is_nil f.node_id)
      && (not (text_eq f.node_id candidate_id) && not (text_eq f.node_id old_id)))
    && not (is_expected_code f.code f.node_id candidate_id)

unfoldable pub finding_text : Finding → Text
finding_text f = sprintf2 (codes "assessment error[") (code_text f.code) (codes "]: ") f.message

unfoldable pub assessment_reasons : Text → Text → List Finding → List Text
assessment_reasons candidate_id old_id [] = []
assessment_reasons candidate_id old_id (f ∷ l) =
    reason_if (is_relevant candidate_id old_id f) (finding_text f)
    ++ assessment_reasons candidate_id old_id l

-- The reasons about the candidate's replica state.
unfoldable pub replica_reasons : ClusterSpec → NodeState → NodeState → ReplicaState → List Text
replica_reasons spec old_primary c r =
    reason_if (not r.auto_position) (candidate_text c.id (codes " does not use GTID auto-position"))
    ++ (reason_if (not r.sql_thread_running)
          (candidate_text c.id (codes " SQL thread is not running"))
        ++ (reason_if (is_nil r.source_id)
              (candidate_text c.id (codes " source is not mapped to the configured topology"))
            ++ reason_if (sources_elsewhere spec old_primary r) (
                sprintf2 (codes "candidate ") c.id (codes " sources from ")
                  (sprintf2 r.source_id (codes " instead of the old primary ") old_primary.id []))))

-- The reasons of the strict salvage policy, which is also the default.
unfoldable pub strict_reasons : ClusterSpec → RecoverySummary → List Text
strict_reasons spec recovery =
    let strict = is_strict_or_unset spec.replication.salvage.policy in
    reason_if
      (strict
        && (recovery.missing_from_primary_known && not (is_nil recovery.missing_from_primary_set)))
      (codes "strict salvage policy: candidate is missing transactions from the old primary")
    ++ reason_if (strict && not (is_nil recovery.recovery_gaps))
        (codes "strict salvage policy: candidate is behind one or more surviving replicas")

-- The reasons about a dead old primary whose transactions only SSH can salvage.
unfoldable pub salvage_reasons :
    ClusterSpec → NodeState → NodeState → RecoverySummary → Bool → List Text
salvage_reasons spec old_primary c recovery confirmed =
    let policy = spec.replication.salvage.policy in
    let ssh = node_has_ssh_binlog_salvage spec old_primary.id in
    let unknown =
      confirmed
      && (is_dead old_primary.health
          && (is_blank old_primary.gtid_executed && not (is_availability_first policy))) in
    reason_if (unknown && not ssh)
      (codes "old primary GTID is unknown and SSH binlog salvage is not configured")
    ++ (reason_if (unknown && (ssh && is_blank c.gtid_executed)) (
          codes
            "old primary GTID is unknown and candidate GTID is unavailable for SSH binlog salvage filtering")
        ++ reason_if
            (confirmed
              && (is_dead old_primary.health
                  && (recovery.missing_from_primary_known
                      && (not (is_blank recovery.missing_from_primary_set)
                          && (is_if_possible policy && not ssh)))))
            (codes "old primary is SQL-dead and missing transactions require SSH binlog salvage"))

-- The reasons that do not look into the replica state.
unfoldable pub early_reasons : NodeState → Bool → List Text → List Text
early_reasons c confirmed readiness =
    reason_if (not confirmed) (codes "primary failure is not confirmed")
    ++ (readiness ++ reason_if (is_dead c.health) (candidate_text c.id (codes " is unreachable")))

-- Behind the early reasons; with no replica state it returns before the later checks.
unfoldable pub blocking_behind :
    ClusterSpec
    → NodeState
    → NodeState
    → Assessment
    → RecoverySummary
    → Bool
    → List Text
    → Option ReplicaState
    → List Text
blocking_behind spec old_primary c assessment recovery confirmed early none =
    early ++ (no_replica_state c.id ∷ [])
blocking_behind spec old_primary c assessment recovery confirmed early (some r) = dedupe_strings (
    early
    ++ (replica_reasons spec old_primary c r
        ++ (strict_reasons spec recovery
            ++ (salvage_reasons spec old_primary c recovery confirmed
                ++ assessment_reasons c.id old_primary.id (errors assessment)))))

-- `buildBlockingReasons`
unfoldable pub build_blocking_reasons :
    ClusterSpec
    → NodeState
    → NodeState
    → Assessment
    → RecoverySummary
    → Bool
    → List Text
    → List Text
unfolding early_reasons
build_blocking_reasons spec old_primary c assessment recovery confirmed readiness =
    blocking_behind spec old_primary c assessment recovery confirmed
      (early_reasons c confirmed readiness) c.replica
