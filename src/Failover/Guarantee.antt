-- ===== src/Failover/Guarantee.antt =====
-- What the plans of `BuildPlan` in internal/controller/failover/controller.go guarantee.
use mha_go.Base.{
  ℕ, Bool, true, false, not, ◌&&◌, Text, List, [], ◌∷◌, Option, none, some, Option-cases, is_nil,
  is_blank, is_nil-append, is_nil-eq, ok, ◌≡◌, ap, ◌∙◌, refl, arith, subst, ◌↔◌, Bool-cases, inl,
  inr, In,
}
use mha_go.Base.Lists.{head, tail}
use mha_go.Domain.Spec.{ClusterSpec, is_strict_or_unset}
use mha_go.Domain.View.{ClusterView, NodeState, ReplicaState, is_dead}
use mha_go.Domain.Plan.{RecoveryGap}
use mha_go.Topology.Assessment.{Assessment, assess_replication}
use mha_go.Gtid.Sets.{GtidSet}
use mha_go.Gtid.Sets.Laws.{member}
use mha_go.Gtid.Parse.{parse}
use mha_go.Gtid.Parse.Blank.{member_blank}
use mha_go.Gtid.Print.{subtract_texts, print}
use mha_go.Gtid.Print.Nothing.{subtract_texts_nil}
use mha_go.Gtid.Sets
use mha_go.Gtid.Recovery.{
  RecoverySummary, build_recovery_summary, missing_from_primary, gap_of, recovery_gaps_of,
  is_other_live_replica, cons_option,
}
use mha_go.Failover.Readiness.{
  build_blocking_reasons, blocking_behind, early_reasons, no_replica_state,
  evaluate_promote_readiness, confirm_primary_failure,
}
use mha_go.Failover.Permission.{IsPermitted, blocking_iff}
use mha_go.Failover.Plan.{make_plan, plan_without_steps}

no_replica_blocks :
    (spec : ClusterSpec) (old_primary c : NodeState) (a : Assessment) (recovery : RecoverySummary)
    (confirmed : Bool) (readiness : List Text)
    → c.replica ≡ none
    → is_nil (build_blocking_reasons spec old_primary c a recovery confirmed readiness) ≡ false
unfolding build_blocking_reasons blocking_behind
no_replica_blocks spec old_primary c a recovery confirmed readiness e = rw e (
    is_nil-append (early_reasons c confirmed readiness) (no_replica_state c.id ∷ []) ∙ ground arith)

module _ (spec : ClusterSpec) (view : ClusterView) (old_primary c : NodeState) (now : ℕ) where
  pub make_plan-IsPermitted :
      {r : ReplicaState}
      → c.replica ≡ some r
      → ((make_plan spec view old_primary c now).execution_permitted ≡ true)
        ↔ IsPermitted spec old_primary c r
            (assess_replication spec view)
            (build_recovery_summary view old_primary c spec.replication.salvage.policy)
  unfolding make_plan plan_without_steps confirm_primary_failure
  make_plan-IsPermitted {r} e =
      blocking_iff spec old_primary c (assess_replication spec view)
        (build_recovery_summary view old_primary c spec.replication.salvage.policy) e

  pub permitted-replica :
      (make_plan spec view old_primary c now).execution_permitted ≡ true
      → (r : ReplicaState) × (c.replica ≡ some r)
  unfolding make_plan plan_without_steps confirm_primary_failure
  permitted-replica h = elim (Option-cases c.replica) [
    | inl e ↦
        let blocks =
          no_replica_blocks spec old_primary c (assess_replication spec view)
            (build_recovery_summary view old_primary c spec.replication.salvage.policy)
            (is_dead old_primary.health) (evaluate_promote_readiness spec old_primary c) e in
        cc (h, blocks)
    | inr found ↦ found
  ]

subtract_texts-parsed :
    (a b : Text) {s t : GtidSet}
    → parse a ≡ ok s
    → parse b ≡ ok t
    → subtract_texts a b ≡ ok (print (Sets.subtract s t))
unfolding subtract_texts
subtract_texts-parsed a b e e' = rw e (rw e' refl)

missing_from_primary-nil :
    (old_primary c : NodeState) {s t : GtidSet}
    → parse old_primary.gtid_executed ≡ ok s
    → parse c.gtid_executed ≡ ok t
    → is_blank old_primary.gtid_executed ≡ false
    → (missing_from_primary old_primary c).0 && not (is_nil (missing_from_primary old_primary c).1)
      ≡ false
    → subtract_texts old_primary.gtid_executed c.gtid_executed ≡ ok []
missing_from_primary-nil old_primary c {s} {t} e e' b h =
    let run = subtract_texts-parsed old_primary.gtid_executed c.gtid_executed e e' in
    let known : missing_from_primary old_primary c ≡ (true, print (Sets.subtract s t)) =
      unfold missing_from_primary in rw b (rw run refl) in
    let nil : not (is_nil (print (Sets.subtract s t))) ≡ false =
      subst (λ m. m.0 && not (is_nil m.1) ≡ false) known h in
    run ∙ ap ok (is_nil-eq (print (Sets.subtract s t)) (ground arith))

cons_option-nil :
    (o : Option RecoveryGap) (l : List RecoveryGap)
    → is_nil (cons_option o l) ≡ true
    → (o ≡ none) × (is_nil l ≡ true)
cons_option-nil none l h = (refl, h)
cons_option-nil (some g) l h = cc

no_gaps :
    (c n : NodeState) (nodes : List NodeState)
    → is_nil (recovery_gaps_of c nodes) ≡ true
    → In n nodes
    → gap_of c n ≡ none
unfolding recovery_gaps_of
no_gaps c n [] h i = elim i [ ]
no_gaps c n (m ∷ nodes) h head = (cons_option-nil (gap_of c n) (recovery_gaps_of c nodes) h).0
no_gaps c n (m ∷ nodes) h (tail i) =
    no_gaps c n nodes (cons_option-nil (gap_of c m) (recovery_gaps_of c nodes) h).1 i

gap_of-nil :
    (c n : NodeState) {s t : GtidSet}
    → parse n.gtid_executed ≡ ok s
    → parse c.gtid_executed ≡ ok t
    → is_blank n.gtid_executed ≡ false
    → is_other_live_replica c n ≡ true
    → gap_of c n ≡ none
    → subtract_texts n.gtid_executed c.gtid_executed ≡ ok []
unfolding gap_of
gap_of-nil c n {s} {t} e e' b o h =
    let run = subtract_texts-parsed n.gtid_executed c.gtid_executed e e' in
    elim (Bool-cases (is_nil (print (Sets.subtract s t)))) [
      | inl nil ↦ run ∙ ap ok (is_nil-eq (print (Sets.subtract s t)) nil)
      | inr nil ↦
          let gap : gap_of c n
              ≡ some record {
                source_node_id = n.id;
                missing_gtid_set = print (Sets.subtract s t);
                missing_gtid_known = true;
              } =
            rw o (rw b (rw run (rw nil refl))) in
          cc
    ]

module _ (spec : ClusterSpec) (view : ClusterView) (old_primary c : NodeState) (now : ℕ)
    (strict : is_strict_or_unset spec.replication.salvage.policy ≡ true)
    (permitted : (make_plan spec view old_primary c now).execution_permitted ≡ true) where
  strict_IsPermitted :
      (r : ReplicaState) × IsPermitted spec old_primary c r
        (assess_replication spec view)
        (build_recovery_summary view old_primary c spec.replication.salvage.policy)
  strict_IsPermitted =
      let (r, e) = permitted-replica spec view old_primary c now permitted in
      (r, (make_plan-IsPermitted spec view old_primary c now e).0 permitted)

  -- Under the strict salvage policy, or with none set, a plan that permits its execution
  -- loses nothing of the old primary: every transaction of the old primary's GTID set is in the
  -- candidate's, where both sets can be read.
  pub strict_keeps_primary :
      {s t : GtidSet} (sid : Text) (n : ℕ)
      → parse old_primary.gtid_executed ≡ ok s
      → parse c.gtid_executed ≡ ok t
      → member s sid n ≡ true
      → member t sid n ≡ true
  strict_keeps_primary sid n e e' m =
      let none_ahead = strict_IsPermitted.1.none_missing strict in
      let nil =
        missing_from_primary-nil old_primary c e e' (member_blank _ sid n e m)
          (unfold build_recovery_summary in none_ahead) in
      subtract_texts_nil old_primary.gtid_executed c.gtid_executed sid n e e' nil m

  -- Under the strict salvage policy, a plan that permits its execution loses nothing of another
  -- replica of the view that is not dead: every transaction of its GTID set is in the
  -- candidate's, where both sets can be read.
  pub strict_keeps_replica :
      (other : NodeState) {s t : GtidSet} (sid : Text) (n : ℕ)
      → In other view.nodes
      → is_other_live_replica c other ≡ true
      → parse other.gtid_executed ≡ ok s
      → parse c.gtid_executed ≡ ok t
      → member s sid n ≡ true
      → member t sid n ≡ true
  strict_keeps_replica other sid n i o e e' m =
      let none_gap = strict_IsPermitted.1.no_gap strict in
      let nil =
        gap_of-nil c other e e' (member_blank _ sid n e m) o
          (no_gaps c other view.nodes (unfold build_recovery_summary in none_gap) i) in
      subtract_texts_nil other.gtid_executed c.gtid_executed sid n e e' nil m
