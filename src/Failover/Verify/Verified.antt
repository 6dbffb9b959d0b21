-- ===== src/Failover/Verify/Verified.antt =====
-- What a passed `VerifyPostFailover` of internal/controller/failover/verify.go says.
use mha_go.Base.{
  true, false, not, ◌||◌, Text, codes, List, [], ◌∷◌, is_nil, some, Result, ok, map_err, >>=-eq-ok,
  ◌≡◌, In, arith, inl, inr, Bool-cases,
}
use mha_go.Base.Errors.{test-eq-ok, map_err-eq-ok, behind, behind_true}
use mha_go.Base.Lists.{head, tail}
use mha_go.Domain.Spec.{ClusterSpec, NodeSpec}
use mha_go.Domain.Plan.{FailoverPlan}
use mha_go.Domain.Inspection.{
  Inspection, ReplicaChannelStatus, node_spec_by_id, replica_points_to_node, follows, or_error,
  or_error-some, no_node_text, inspect_text,
}
use mha_go.Failover.Verify.{
  check_candidate, check_channel, check_node, check_nodes, is_passed_over, verify_post_failover,
}

check_channel-follows :
    (id candidate_id : Text) (candidate : NodeSpec) (channels : List ReplicaChannelStatus)
    {u : Unit}
    → check_channel id candidate_id candidate channels ≡ ok u
    → follows candidate channels ≡ true
unfolding check_channel follows
check_channel-follows id candidate_id candidate [] h = cc
check_channel-follows id candidate_id candidate (ch ∷ channels) h =
    let (points, h1) = test-eq-ok (not (replica_points_to_node ch candidate)) _ _ h in
    let (auto, h2) = test-eq-ok (not ch.auto_position) _ _ h1 in
    let (running, h3) = test-eq-ok (not ch.io_thread_running || not ch.sql_thread_running) _ _ h2 in
    ground (points, auto, running, arith)

module _ (inspect : NodeSpec → Result Text Inspection) (plan : FailoverPlan)
    (spec : ClusterSpec) where
  check_node-follows :
      (candidate n : NodeSpec) {u : Unit}
      → check_node inspect plan candidate n ≡ ok u
      → (i : Inspection) × (inspect n ≡ ok i) × (follows candidate i.replica_channels ≡ true)
  unfolding check_node
  check_node-follows candidate n h =
      let (i, e, h1) = >>=-eq-ok (map_err (inspect_text (codes "node") n.id) (inspect n)) _ h in
      (
        i,
        map_err-eq-ok _ _ e,
        check_channel-follows n.id plan.candidate.id candidate i.replica_channels h1,
      )

  check_nodes-follow :
      (candidate : NodeSpec) (nodes : List NodeSpec) {u : Unit} (n : NodeSpec)
      → check_nodes inspect plan candidate nodes ≡ ok u
      → In n nodes
      → is_passed_over plan n ≡ false
      → (i : Inspection) × (inspect n ≡ ok i) × (follows candidate i.replica_channels ≡ true)
  unfolding check_nodes
  check_nodes-follow candidate [] m h i named = elim i [ ]
  check_nodes-follow candidate (n ∷ nodes) m h head named =
      let (passed, e, h1) =
        >>=-eq-ok (check_node inspect plan candidate n) _
          (behind (is_passed_over plan n) _ _ named h) in
      check_node-follows candidate n e
  check_nodes-follow candidate (n ∷ nodes) m h (tail i) named =
      elim (Bool-cases (is_passed_over plan n)) [
        | inl over ↦
            check_nodes-follow candidate nodes m (behind_true (is_passed_over plan n) _ _ over h) i
              named
        | inr kept ↦
            let (passed, e, h1) =
              >>=-eq-ok (check_node inspect plan candidate n) _
                (behind (is_passed_over plan n) _ _ kept h) in
            check_nodes-follow candidate nodes m h1 i named
      ]

  -- The cluster as it should be behind a failover to the node.
  pub record IsFailedOver (candidate : NodeSpec) (new : Inspection) : Type 0 where
    pub candidate_found : node_spec_by_id spec plan.candidate.id ≡ some candidate
    pub new_inspected : inspect candidate ≡ ok new
    pub new_writable : (new.read_only ≡ false) × (new.super_read_only ≡ false)
    pub new_alone : is_nil new.replica_channels ≡ true
    pub others :
        (n : NodeSpec)
        → In n spec.nodes
        → is_passed_over plan n ≡ false
        → (i : Inspection) × (inspect n ≡ ok i) × (follows candidate i.replica_channels ≡ true)

  -- A verification that passes has found the cluster failed over: the candidate takes writes
  -- and replicates from nobody, and each other node replicates from it, with auto-position and
  -- both threads running, but for the observers, the nodes marked no_master, an old primary
  -- that is dead, and the replicas that the plan lists as skipped.
  pub verify_post_failover-IsFailedOver :
      {u : Unit}
      → verify_post_failover inspect plan spec ≡ ok u
      → (candidate : NodeSpec) × (new : Inspection) × IsFailedOver candidate new
  unfolding verify_post_failover
  verify_post_failover-IsFailedOver h =
      let (candidate, e, h1) =
        >>=-eq-ok
          (or_error (no_node_text plan.candidate.id (codes "candidate"))
            (node_spec_by_id spec plan.candidate.id))
          _ h in
      let (new, e1, h2) =
        >>=-eq-ok (map_err (inspect_text (codes "candidate") plan.candidate.id) (inspect candidate))
          _ h1 in
      let (u, e2, h3) = >>=-eq-ok (check_candidate plan.candidate.id new) _ h2 in
      let (writable, f) =
        test-eq-ok (new.read_only || new.super_read_only) _ _ (unfold check_candidate in e2) in
      let (alone, f') = test-eq-ok (not (is_nil new.replica_channels)) _ _ f in
      (
        candidate,
        new,
        record {
          candidate_found = or_error-some _ _ e;
          new_inspected = map_err-eq-ok _ _ e1;
          new_writable = ground arith;
          new_alone = ground arith;
          others = λ n i named. check_nodes-follow candidate spec.nodes n h3 i named;
        },
      )
