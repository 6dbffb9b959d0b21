-- ===== src/Config/Cluster.antt =====
-- What `fileSpec.toDomain` of internal/config/spec.go promises of the cluster it returns.
use mha_go.Base.{
  ℕ, ◌+◌, ◌≤◌, ℤ, pos, leb_ℤ, ltb_ℤ, false, ltb, Text, codes, is_nil, is_blank, trim_space, List,
  [], ◌∷◌, length, All, if◌then◌else◌, Result, ok, >>=-eq-ok, map_err, ◌≡◌, sym, ap, subst, arith,
}
use mha_go.Base.Errors.{ok-injective, test-eq-ok}
use mha_go.Domain.Spec.{ControllerSpec, ReplicationSpec, FencingStepSpec, ClusterSpec}
use mha_go.Config.{FileSpec, FileControllerSpec, FileReplicationSpec, FileFencingStepSpec}
use mha_go.Config.Parts.{
  name_unset, few_nodes, step_kind_unset, invalid_step_timeout, topology_of, semi_sync_of,
  salvage_of, mode_of, nodes_of, with_primary, positive_or, seconds,
}
use mha_go.Config.Convert.{
  controller_of, replication_of, fencing_steps_of, cluster_of, to_domain, duration,
  secondary_checks_of, parse_duration_default,
}
use mha_go.Config.Valid.{IsCluster}
use mha_go.Config.Valid.{
  topology_of-kind, semi_sync_of-set, salvage_of-set, is_unset_semi_sync, is_unset_salvage,
}
use mha_go.Config.Nodes.{nodes_of-IsNode, with_primary-one}

positive_or-positive : (n : ℤ) → leb_ℤ (positive_or (pos 3) n) (pos 0) ≡ false
positive_or-positive n = ground arith

no_less : (n : ℤ) → ltb_ℤ (if ltb_ℤ n (pos 0) then pos 0 else n) (pos 0) ≡ false
no_less n = ground arith

module _ (parse_duration : Text → Result Text ℤ) where
  controller_of-threshold :
      (f : FileControllerSpec) {s : ControllerSpec}
      → controller_of parse_duration f ≡ ok s
      → leb_ℤ s.monitor.failure_threshold (pos 0) ≡ false
  unfolding controller_of
  controller_of-threshold f h =
      let (ttl, e, h1) =
        >>=-eq-ok (duration parse_duration (codes "controller.lease.ttl") f.lease.ttl (seconds 15))
          _ h in
      let (interval, e1, h2) =
        >>=-eq-ok
          (duration parse_duration (codes "controller.monitor.interval") f.monitor.interval
            (seconds 1))
          _ h1 in
      let (reconfirm, e2, h3) =
        >>=-eq-ok
          (duration parse_duration (codes "controller.monitor.reconfirm_timeout")
            f.monitor.reconfirm_timeout (seconds 3))
          _ h2 in
      let (checks, e3, h4) =
        >>=-eq-ok (secondary_checks_of parse_duration f.secondary_checks) _ h3 in
      subst (λ n. leb_ℤ n (pos 0) ≡ false)
        (ap (λ (s : ControllerSpec). s.monitor.failure_threshold) (ok-injective h4))
        (positive_or-positive f.monitor.failure_threshold)

  abbrev IsReplication : ReplicationSpec → Type 0
  IsReplication r =
      (is_unset_semi_sync r.semi_sync.policy ≡ false)
      × (ltb_ℤ r.semi_sync.wait_for_replica_count (pos 0) ≡ false)
      × (is_unset_salvage r.salvage.policy ≡ false)

  replication_of-policies :
      (f : FileReplicationSpec) {r : ReplicationSpec}
      → replication_of parse_duration f ≡ ok r
      → IsReplication r
  unfolding replication_of
  replication_of-policies f h =
      let (mode, e, h1) = >>=-eq-ok (mode_of (trim_space f.mode)) _ h in
      let (semi_sync, e1, h2) = >>=-eq-ok (semi_sync_of (trim_space f.semi_sync.policy)) _ h1 in
      let (timeout, e2, h3) =
        >>=-eq-ok
          (duration parse_duration (codes "replication.semi_sync.timeout") f.semi_sync.timeout
            (seconds 5))
          _ h2 in
      let (salvage, e4, h4) = >>=-eq-ok (salvage_of (trim_space f.salvage.policy)) _ h3 in
      let (timeout', e5, h5) =
        >>=-eq-ok
          (duration parse_duration (codes "replication.salvage.timeout") f.salvage.timeout
            (seconds 30))
          _ h4 in
      subst IsReplication (ok-injective h5) (
        semi_sync_of-set (trim_space f.semi_sync.policy) e1,
        no_less f.semi_sync.wait_for_replica_count,
        salvage_of-set (trim_space f.salvage.policy) e4,
      )

  fencing_steps_of-kinds :
      (i : ℕ) (l : List FileFencingStepSpec) {steps : List FencingStepSpec}
      → fencing_steps_of parse_duration i l ≡ ok steps
      → All (λ (s : FencingStepSpec). is_nil s.kind ≡ false) steps
  unfolding fencing_steps_of
  fencing_steps_of-kinds i [] h =
      subst (All (λ (s : FencingStepSpec). is_nil s.kind ≡ false)) (ok-injective h) tt
  fencing_steps_of-kinds i (s ∷ l) h =
      let (set, h1) = test-eq-ok (is_nil (trim_space s.kind)) (step_kind_unset i) _ h in
      let (timeout, e, h2) =
        >>=-eq-ok
          (map_err (invalid_step_timeout i)
            (parse_duration_default parse_duration s.timeout (pos 0)))
          _ h1 in
      let (rest, e1, h3) = >>=-eq-ok (fencing_steps_of parse_duration (i + 1) l) _ h2 in
      subst (All (λ (s : FencingStepSpec). is_nil s.kind ≡ false)) (ok-injective h3)
        (set, fencing_steps_of-kinds (i + 1) l e1)

  -- When a configuration file is accepted, the cluster it describes is well formed: it has a
  -- name, a single-primary MySQL topology, a positive failure threshold, a semi-sync policy with a
  -- replica count that is not negative, and a salvage policy; each fencing step has a kind; and of
  -- its at least two nodes, each with an id, a host, a port that is not 0, a role, version series
  -- 8.4 or 9.7, and replication credentials set together or not at all, exactly one is the
  -- primary.
  pub to_domain-IsCluster :
      (f : FileSpec) {s : ClusterSpec} → to_domain parse_duration f ≡ ok s → IsCluster s
  unfolding to_domain cluster_of
  to_domain-IsCluster f h =
      let (named, h0) = test-eq-ok (is_blank f.name) name_unset _ h in
      let (topology, e, h1) = >>=-eq-ok (topology_of f.topology) _ h0 in
      let (controller, e1, h2) = >>=-eq-ok (controller_of parse_duration f.controller) _ h1 in
      let (replication, e2, h3) = >>=-eq-ok (replication_of parse_duration f.replication) _ h2 in
      let (steps, e3, h4) = >>=-eq-ok (fencing_steps_of parse_duration 0 f.fencing.steps) _ h3 in
      let (enough, h5) = test-eq-ok (ltb (length f.nodes) 2) few_nodes _ h4 in
      let (nodes, e4, h6) = >>=-eq-ok (nodes_of f.nodes) _ h5 in
      let (nodes', e5, h7) = >>=-eq-ok (with_primary nodes) _ h6 in
      let (each, same) = nodes_of-IsNode f.nodes e4 in
      let (one, each', two) =
        with_primary-one nodes e5 (subst (λ n. 2 ≤ n) (sym same) (ground arith)) each in
      let (semi_sync, count, salvage) = replication_of-policies f.replication e2 in
      subst IsCluster (ok-injective h7) record {
        name_set = named;
        kind = topology_of-kind f.topology e;
        threshold = controller_of-threshold f.controller e1;
        semi_sync_set = semi_sync;
        wait_count = count;
        salvage_set = salvage;
        steps = fencing_steps_of-kinds 0 f.fencing.steps e3;
        two_nodes = two;
        one_primary = one;
        nodes = each';
      }
