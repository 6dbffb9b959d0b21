-- ===== src/Failover/Permission.antt =====
-- When the checks of internal/controller/failover/controller.go let a failover run.
use mha_go.Base.{
  pos, ltb_ℤ, Bool, true, false, not, ◌&&◌, ◌||◌, Text, List, [], ◌∷◌, some, is_nil, is_nil-append,
  is_blank, ◌≡◌, ap, ◌∙◌, refl, arith, sym, subst, ◌↔◌, codes, any,
}
use mha_go.Domain.Spec.{ClusterSpec, is_strict_or_unset, is_availability_first, is_if_possible}
use mha_go.Domain.View.{NodeState, ReplicaState, is_dead}
use mha_go.Topology.Assessment.{Assessment, Finding, errors}
use mha_go.Gtid.Recovery.{RecoverySummary}
use mha_go.Failover.Readiness.{
  reason_if, candidate_text, readiness_behind, blocking_behind, dedupe_strings,
  evaluate_promote_readiness, build_blocking_reasons, early_reasons, replica_reasons,
  strict_reasons, salvage_reasons, assessment_reasons, is_relevant, sources_elsewhere,
  node_has_ssh_binlog_salvage,
}

is_nil-reason_if : (t : Bool) (s : Text) → is_nil (reason_if t s) ≡ not t
is_nil-reason_if true s = refl
is_nil-reason_if false s = refl

is_nil-dedupe_strings : (l : List Text) → is_nil (dedupe_strings l) ≡ is_nil l
unfolding dedupe_strings
is_nil-dedupe_strings [] = refl
is_nil-dedupe_strings (s ∷ l) = refl

ruleset nils = (is_nil-append, is_nil-reason_if, is_nil-dedupe_strings)

-- A replica that may be promoted.
pub record IsReady (spec : ClusterSpec) (old_primary c : NodeState) (r : ReplicaState)
    : Type 0 where
  pub alive : is_dead c.health ≡ false
  pub auto_position : r.auto_position ≡ true
  pub sql_thread : r.sql_thread_running ≡ true
  pub known_source : is_nil r.source_id ≡ false
  pub direct_source : sources_elsewhere spec old_primary r ≡ false
  pub read_only : c.read_only ≡ true
  pub super_read_only : c.super_read_only ≡ true
  pub known_lag : (r.io_thread_running && ltb_ℤ r.seconds_behind_source (pos 0)) ≡ false

is_nil-readiness_behind :
    (spec : ClusterSpec) (old_primary c : NodeState) (first : List Text) (r : ReplicaState)
    → is_nil (readiness_behind spec old_primary c first (some r)) ≡ (
        is_nil first
        && (not (not r.auto_position)
            && (not (not r.sql_thread_running)
                && (not (is_nil r.source_id)
                    && (not (sources_elsewhere spec old_primary r)
                        && (not (not c.read_only || not c.super_read_only)
                            && not
                                (r.io_thread_running && ltb_ℤ r.seconds_behind_source (pos 0))))))))
unfolding readiness_behind
is_nil-readiness_behind spec old_primary c first r = simp nils

readiness_behind_iff :
    (spec : ClusterSpec) (old_primary c : NodeState) (first : List Text) (r : ReplicaState)
    → is_nil first ≡ not (is_dead c.health)
    → (is_nil (readiness_behind spec old_primary c first (some r)) ≡ true)
      ↔ IsReady spec old_primary c r
readiness_behind_iff spec old_primary c first r e = (
  λ h. ground (arith, is_nil-readiness_behind spec old_primary c first r),
  λ h. ground (arith, is_nil-readiness_behind spec old_primary c first r),
)

-- The promote readiness of a candidate with a replica state is confirmed exactly when it is ready.
pub readiness_iff :
    (spec : ClusterSpec) (old_primary c : NodeState) {r : ReplicaState}
    → c.replica ≡ some r
    → (is_nil (evaluate_promote_readiness spec old_primary c) ≡ true) ↔ IsReady spec old_primary c r
unfolding evaluate_promote_readiness
readiness_iff spec old_primary c {r} e =
    subst
      (λ o.
        (is_nil (
            readiness_behind spec old_primary c
              (reason_if (is_dead c.health) (candidate_text c.id (codes " is unreachable"))) o)
          ≡ true)
        ↔ IsReady spec old_primary c r)
      (sym e) (readiness_behind_iff spec old_primary c _ r (is_nil-reason_if _ _))

is_nil-assessment :
    (candidate_id old_id : Text) (l : List Finding)
    → is_nil (assessment_reasons candidate_id old_id l)
      ≡ not (any (is_relevant candidate_id old_id) l)
unfolding assessment_reasons any
is_nil-assessment candidate_id old_id [] = refl
is_nil-assessment candidate_id old_id (f ∷ l) =
    simp (nils, is_nil-assessment candidate_id old_id l) (ground arith)

-- An old primary with no known GTID set, whose transactions the policy wants.
abbrev pub is_unknown : ClusterSpec → NodeState → Bool
is_unknown spec old_primary =
    is_blank old_primary.gtid_executed
    && not (is_availability_first spec.replication.salvage.policy)

abbrev pub primary_ahead : RecoverySummary → Bool
primary_ahead recovery =
    recovery.missing_from_primary_known && not (is_nil recovery.missing_from_primary_set)

-- What the failover checks stand for.
pub record IsPermitted (spec : ClusterSpec) (old_primary c : NodeState) (r : ReplicaState)
    (assessment : Assessment) (recovery : RecoverySummary) : Type 0 where
  pub dead : is_dead old_primary.health ≡ true
  pub ready : IsReady spec old_primary c r
  pub none_missing :
      is_strict_or_unset spec.replication.salvage.policy ≡ true → primary_ahead recovery ≡ false
  pub no_gap :
      is_strict_or_unset spec.replication.salvage.policy ≡ true
      → is_nil recovery.recovery_gaps ≡ true
  pub salvageable :
      is_unknown spec old_primary ≡ true
      → (node_has_ssh_binlog_salvage spec old_primary.id ≡ true)
        × (is_blank c.gtid_executed ≡ false)
  pub reachable :
      is_if_possible spec.replication.salvage.policy ≡ true
      → recovery.missing_from_primary_known ≡ true
      → is_blank recovery.missing_from_primary_set ≡ false
      → node_has_ssh_binlog_salvage spec old_primary.id ≡ true
  pub no_error : any (is_relevant c.id old_primary.id) (errors assessment) ≡ false

is_nil-replica_reasons :
    (spec : ClusterSpec) (old_primary c : NodeState) (r : ReplicaState)
    → is_nil (replica_reasons spec old_primary c r) ≡ (
        not (not r.auto_position)
        && (not (not r.sql_thread_running)
            && (not (is_nil r.source_id) && not (sources_elsewhere spec old_primary r))))
unfolding replica_reasons
is_nil-replica_reasons spec old_primary c r = simp nils

is_nil-strict_reasons :
    (spec : ClusterSpec) (recovery : RecoverySummary)
    → is_nil (strict_reasons spec recovery) ≡ (
        not (is_strict_or_unset spec.replication.salvage.policy && primary_ahead recovery)
        && not (
            is_strict_or_unset spec.replication.salvage.policy
            && not (is_nil recovery.recovery_gaps)))
unfolding strict_reasons
is_nil-strict_reasons spec recovery = simp nils

is_nil-blocking :
    (spec : ClusterSpec) (old_primary c : NodeState) (a : Assessment) (recovery : RecoverySummary)
    (confirmed : Bool) (early : List Text) (r : ReplicaState)
    → is_nil (blocking_behind spec old_primary c a recovery confirmed early (some r)) ≡ (
        is_nil early
        && (is_nil (replica_reasons spec old_primary c r)
            && (is_nil (strict_reasons spec recovery)
                && (is_nil (salvage_reasons spec old_primary c recovery confirmed)
                    && not (any (is_relevant c.id old_primary.id) (errors a))))))
is_nil-blocking spec old_primary c a recovery confirmed early r =
    unfold blocking_behind in simp (nils, is_nil-assessment)

is_nil-salvage_reasons :
    (spec : ClusterSpec) (old_primary c : NodeState) (recovery : RecoverySummary) (confirmed : Bool)
    → is_nil (salvage_reasons spec old_primary c recovery confirmed) ≡ (
        not (
          (confirmed && (is_dead old_primary.health && is_unknown spec old_primary))
          && not (node_has_ssh_binlog_salvage spec old_primary.id))
        && (not (
              (confirmed && (is_dead old_primary.health && is_unknown spec old_primary))
              && (node_has_ssh_binlog_salvage spec old_primary.id && is_blank c.gtid_executed))
            && not (
                confirmed
                && (is_dead old_primary.health
                    && (recovery.missing_from_primary_known
                        && (not (is_blank recovery.missing_from_primary_set)
                            && (is_if_possible spec.replication.salvage.policy
                                && not (node_has_ssh_binlog_salvage spec old_primary.id))))))))
unfolding salvage_reasons
is_nil-salvage_reasons spec old_primary c recovery confirmed = simp nils

is_nil-early :
    (c : NodeState) (confirmed : Bool) (readiness : List Text)
    → is_nil (early_reasons c confirmed readiness)
      ≡ (not (not confirmed) && (is_nil readiness && not (is_dead c.health)))
unfolding early_reasons
is_nil-early c confirmed readiness = simp nils

-- There is no blocking reason exactly when the failover is permitted.
pub blocking_iff :
    (spec : ClusterSpec) (old_primary c : NodeState) (a : Assessment) (recovery : RecoverySummary)
    {r : ReplicaState}
    → c.replica ≡ some r
    → (is_nil (
          build_blocking_reasons spec old_primary c a recovery
            (is_dead old_primary.health)
            (evaluate_promote_readiness spec old_primary c))
        ≡ true)
      ↔ IsPermitted spec old_primary c r a recovery
blocking_iff spec old_primary c a recovery {r} e =
    subst (λ b. (b ≡ true) ↔ IsPermitted spec old_primary c r a recovery) (sym nil) (there, back)
  where
    readiness : List Text
    readiness = evaluate_promote_readiness spec old_primary c

    early : List Text
    early = early_reasons c (is_dead old_primary.health) readiness

    nil :
        is_nil (
          build_blocking_reasons spec old_primary c a recovery
            (is_dead old_primary.health)
            readiness)
        ≡ (is_nil early
            && (is_nil (replica_reasons spec old_primary c r)
                && (is_nil (strict_reasons spec recovery)
                    && (is_nil
                          (salvage_reasons spec old_primary c recovery (is_dead old_primary.health))
                        && not (any (is_relevant c.id old_primary.id) (errors a))))))
    nil =
        unfold build_blocking_reasons in
        ap
          (λ o.
            is_nil
              (blocking_behind spec old_primary c a recovery (is_dead old_primary.health) early o))
          e
        ∙ is_nil-blocking spec old_primary c a recovery (is_dead old_primary.health) early r

    there :
        (is_nil early
            && (is_nil (replica_reasons spec old_primary c r)
                && (is_nil (strict_reasons spec recovery)
                    && (is_nil
                          (salvage_reasons spec old_primary c recovery (is_dead old_primary.health))
                        && not (any (is_relevant c.id old_primary.id) (errors a))))))
          ≡ true
        → IsPermitted spec old_primary c r a recovery
    there h = record {
      dead = ground (arith, is_nil-early c (is_dead old_primary.health) readiness);
      ready =
          (readiness_iff spec old_primary c e).0
            (ground (arith, is_nil-early c (is_dead old_primary.health) readiness));
      none_missing = ground (arith, is_nil-strict_reasons spec recovery);
      no_gap = ground (arith, is_nil-strict_reasons spec recovery);
      salvageable = ground (
        arith,
        is_nil-early c (is_dead old_primary.health) readiness,
        is_nil-salvage_reasons spec old_primary c recovery (is_dead old_primary.health),
      );
      reachable = ground (
        arith,
        is_nil-early c (is_dead old_primary.health) readiness,
        is_nil-salvage_reasons spec old_primary c recovery (is_dead old_primary.health),
      );
      no_error = ground arith;
    }

    back :
        IsPermitted spec old_primary c r a recovery
        → (is_nil early
            && (is_nil (replica_reasons spec old_primary c r)
                && (is_nil (strict_reasons spec recovery)
                    && (is_nil
                          (salvage_reasons spec old_primary c recovery (is_dead old_primary.health))
                        && not (any (is_relevant c.id old_primary.id) (errors a))))))
          ≡ true
    back p =
        let ready = (readiness_iff spec old_primary c e).1 p.ready in
        ground (
          arith,
          is_nil-early c (is_dead old_primary.health) readiness,
          is_nil-replica_reasons spec old_primary c r,
          is_nil-strict_reasons spec recovery,
          is_nil-salvage_reasons spec old_primary c recovery (is_dead old_primary.health),
        )
