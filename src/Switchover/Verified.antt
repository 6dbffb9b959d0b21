-- ===== src/Switchover/Verified.antt =====
-- What a passed `VerifyPostSwitchover` of internal/controller/switchover/verify.go says.
use mha_go.Base.{
  Bool, true, false, not, ◌||◌, Text, codes, List, [], ◌∷◌, is_nil, some, Result, ok, map_err,
  >>=-eq-ok, ◌≡◌, In, arith, inl, inr, Bool-cases,
}
use mha_go.Base.Errors.{test-eq-ok, map_err-eq-ok, behind, behind_true}
use mha_go.Base.Lists.{head, tail}
use mha_go.Domain.Spec.{ClusterSpec, NodeSpec}
use mha_go.Domain.Switchover.{SwitchoverPlan}
use mha_go.Domain.Inspection.{
  Inspection, ReplicaChannelStatus, node_spec_by_id, replica_points_to_node, follows, or_error,
  or_error-some, no_node_text, inspect_text,
}
use mha_go.Switchover.Verify.{
  check_new_primary, check_old_channel, check_old_primary, check_channel, check_replica,
  check_replicas, is_passed_over, verify_post_switchover,
}

check_channel-follows :
    (id candidate_id : Text) (candidate : NodeSpec) (channels : List ReplicaChannelStatus)
    {u : Unit}
    → check_channel id candidate_id candidate channels ≡ ok u
    → follows candidate channels ≡ true
unfolding check_channel follows
check_channel-follows id candidate_id candidate [] h = cc
check_channel-follows id candidate_id candidate (ch ∷ channels) h =
    let (points, h1) = test-eq-ok (not (replica_points_to_node ch candidate)) _ _ h in
    let (auto, h2) = test-eq-ok (not ch.auto_position) _ _ h1 in
    let (running, h3) = test-eq-ok (not ch.io_thread_running || not ch.sql_thread_running) _ _ h2 in
    ground (points, auto, running, arith)

-- Whether the first channel replicates from the node.
abbrev pub first_points_to : NodeSpec → List ReplicaChannelStatus → Bool
first_points_to source [] = false
first_points_to source (ch ∷ channels) = replica_points_to_node ch source

check_old_channel-points :
    (id candidate_id : Text) (candidate : NodeSpec) (channels : List ReplicaChannelStatus)
    {u : Unit}
    → check_old_channel id candidate_id candidate channels ≡ ok u
    → first_points_to candidate channels ≡ true
unfolding check_old_channel
check_old_channel-points id candidate_id candidate [] h = cc
check_old_channel-points id candidate_id candidate (ch ∷ channels) h =
    let (points, h1) = test-eq-ok (not (replica_points_to_node ch candidate)) _ _ h in ground arith

module _ (inspect : NodeSpec → Result Text Inspection) (spec : ClusterSpec)
    (plan : SwitchoverPlan) where
  -- The cluster as it should be behind a switchover to the node.
  pub record IsSwitchedOver (candidate original : NodeSpec) (new old : Inspection) : Type 0 where
    pub candidate_found : node_spec_by_id spec plan.candidate.id ≡ some candidate
    pub original_found : node_spec_by_id spec plan.original_primary.id ≡ some original
    pub new_inspected : inspect candidate ≡ ok new
    pub old_inspected : inspect original ≡ ok old
    pub new_writable : (new.read_only ≡ false) × (new.super_read_only ≡ false)
    pub new_alone : is_nil new.replica_channels ≡ true
    pub old_read_only : old.read_only ≡ true
    pub old_points : first_points_to candidate old.replica_channels ≡ true
    pub others :
        (n : NodeSpec)
        → In n spec.nodes
        → is_passed_over plan n ≡ false
        → (i : Inspection) × (inspect n ≡ ok i) × (follows candidate i.replica_channels ≡ true)

  check_replica-follows :
      (candidate n : NodeSpec) {u : Unit}
      → check_replica inspect plan candidate n ≡ ok u
      → (i : Inspection) × (inspect n ≡ ok i) × (follows candidate i.replica_channels ≡ true)
  unfolding check_replica
  check_replica-follows candidate n h =
      let (i, e, h1) = >>=-eq-ok (map_err (inspect_text (codes "replica") n.id) (inspect n)) _ h in
      (
        i,
        map_err-eq-ok _ _ e,
        check_channel-follows n.id plan.candidate.id candidate i.replica_channels h1,
      )

  check_replicas-follow :
      (candidate : NodeSpec) (nodes : List NodeSpec) {u : Unit} (n : NodeSpec)
      → check_replicas inspect plan candidate nodes ≡ ok u
      → In n nodes
      → is_passed_over plan n ≡ false
      → (i : Inspection) × (inspect n ≡ ok i) × (follows candidate i.replica_channels ≡ true)
  unfolding check_replicas
  check_replicas-follow candidate [] m h i named = elim i [ ]
  check_replicas-follow candidate (n ∷ nodes) m h head named =
      let (passed, e, h1) =
        >>=-eq-ok (check_replica inspect plan candidate n) _
          (behind (is_passed_over plan n) _ _ named h) in
      check_replica-follows candidate n e
  check_replicas-follow candidate (n ∷ nodes) m h (tail i) named =
      elim (Bool-cases (is_passed_over plan n)) [
        | inl over ↦
            check_replicas-follow candidate nodes m (behind_true (is_passed_over plan n) _ _ over h)
              i named
        | inr kept ↦
            let (passed, e, h1) =
              >>=-eq-ok (check_replica inspect plan candidate n) _
                (behind (is_passed_over plan n) _ _ kept h) in
            check_replicas-follow candidate nodes m h1 i named
      ]

  -- A verification that passes has found the cluster switched over: the candidate takes
  -- writes and replicates from nobody, the original primary is read-only and its first channel
  -- points to the candidate, and each other node that is neither an observer nor marked no_master
  -- replicates from the candidate, with auto-position and both threads running.
  pub verify_post_switchover-IsSwitchedOver :
      {u : Unit}
      → verify_post_switchover inspect plan spec ≡ ok u
      → (candidate : NodeSpec) × (original : NodeSpec) × (new : Inspection) × (old : Inspection)
        × IsSwitchedOver candidate original new old
  unfolding verify_post_switchover
  verify_post_switchover-IsSwitchedOver h =
      let (candidate, e, h1) =
        >>=-eq-ok
          (or_error (no_node_text plan.candidate.id (codes "candidate"))
            (node_spec_by_id spec plan.candidate.id))
          _ h in
      let (new, e1, h2) =
        >>=-eq-ok
          (map_err (inspect_text (codes "new primary") plan.candidate.id) (inspect candidate)) _
          h1 in
      let (u, e2, h3) = >>=-eq-ok (check_new_primary plan.candidate.id new) _ h2 in
      let (original, e3, h4) =
        >>=-eq-ok
          (or_error (no_node_text plan.original_primary.id (codes "original primary"))
            (node_spec_by_id spec plan.original_primary.id))
          _ h3 in
      let (old, e4, h5) =
        >>=-eq-ok
          (map_err (inspect_text (codes "old primary") plan.original_primary.id) (inspect original))
          _ h4 in
      let (u', e5, h6) =
        >>=-eq-ok (check_old_primary plan.original_primary.id plan.candidate.id candidate old) _
          h5 in
      let (writable, f) =
        test-eq-ok (new.read_only || new.super_read_only) _ _ (unfold check_new_primary in e2) in
      let (alone, f') = test-eq-ok (not (is_nil new.replica_channels)) _ _ f in
      let (locked, g) = test-eq-ok (not old.read_only) _ _ (unfold check_old_primary in e5) in
      (
        candidate,
        original,
        new,
        old,
        record {
          candidate_found = or_error-some _ _ e;
          original_found = or_error-some _ _ e3;
          new_inspected = map_err-eq-ok _ _ e1;
          old_inspected = map_err-eq-ok _ _ e4;
          new_writable = ground arith;
          new_alone = ground arith;
          old_read_only = ground arith;
          old_points =
              check_old_channel-points plan.original_primary.id plan.candidate.id candidate
                old.replica_channels g;
          others = λ n i named. check_replicas-follow candidate spec.nodes n h6 i named;
        },
      )
