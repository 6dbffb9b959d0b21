-- ===== src/Switchover/Lossless.antt =====
-- The test of a writable candidate's transactions in internal/controller/switchover/controller.go.
use mha_go.Base.{
  ℕ, Bool, true, false, not, ◌||◌, Text, is_nil, is_blank, trim_space, Option, none, some, map_err,
  subst, Result, ok, err, ◌≡◌, refl, ap, ◌∙◌, >>=-eq-ok, Bool-cases, inl, inr, arith,
}
use mha_go.Base.Errors.{map_err-eq-ok, ok-injective, test-eq-ok, behind, behind_true}
use mha_go.Domain.Spec.{ClusterSpec}
use mha_go.Domain.View.{ClusterView, NodeState, primary_node}
use mha_go.Domain.Switchover.{SwitchoverPlan}
use mha_go.Topology.Assessment.{assess_replication, has_errors}
use mha_go.Gtid.Sets.{GtidSet}
use mha_go.Gtid.Sets.Laws.{member}
use mha_go.Gtid.Parse.{parse}
use mha_go.Gtid.Parse.Message.{parse_error_text}
use mha_go.Gtid.Print.{subtract_texts}
use mha_go.Gtid.Print.Nothing.{subtract_texts_blank}
use mha_go.Gtid.Parse.Blank.{member_blank, parse-trim_space}
use mha_go.Switchover.Plan.{
  candidate_errant_gtid, no_errant, writable_candidate_check, plan_of, plan_for, primary_or_err,
}

-- Whether the node takes writes from someone.
abbrev pub is_writable : NodeState → Bool
is_writable n = not n.read_only || not n.super_read_only

candidate_errant_gtid-nil :
    (primary c : NodeState) {s t : GtidSet} {r : Text} (sid : Text) (n : ℕ)
    → parse c.gtid_executed ≡ ok s
    → parse primary.gtid_executed ≡ ok t
    → candidate_errant_gtid primary c ≡ ok r
    → is_nil r ≡ true
    → member s sid n ≡ true
    → member t sid n ≡ true
unfolding candidate_errant_gtid is_blank
candidate_errant_gtid-nil primary c {s} {t} {r} sid n e e' h nil m =
    let behind_blank =
      behind (is_nil (trim_space c.gtid_executed)) _ _ (member_blank c.gtid_executed sid n e m) h in
    let (known, h1) = test-eq-ok (is_nil (trim_space primary.gtid_executed)) _ _ behind_blank in
    let (errant, e1, h2) =
      >>=-eq-ok
        (map_err parse_error_text
          (subtract_texts (trim_space c.gtid_executed) (trim_space primary.gtid_executed)))
        _ h1 in
    subtract_texts_blank (trim_space c.gtid_executed) (trim_space primary.gtid_executed) sid n
      (parse-trim_space c.gtid_executed ∙ e) (parse-trim_space primary.gtid_executed ∙ e')
      (map_err-eq-ok _ _ e1) (ap is_nil (ok-injective h2) ∙ nil) m

no_errant-nil :
    (primary c : NodeState) (found : Result Text Text) {u : Unit}
    → no_errant primary c found ≡ ok u
    → (r : Text) × (found ≡ ok r) × (is_nil r ≡ true)
no_errant-nil primary c (err e) h = cc
no_errant-nil primary c (ok r) h = elim (Bool-cases (is_nil r)) [
  | inl nil ↦ (r, refl, nil)
  | inr shown ↦ absurd (ground (arith, behind (is_nil r) _ _ shown h))
]

-- A discovered view from which a switchover is planned.
pub record IsPlanned (spec : ClusterSpec) (view : ClusterView) (plan : SwitchoverPlan)
    : Type 0 where
  pub no_errors : has_errors (assess_replication spec view) ≡ false
  pub primary : primary_node view ≡ some plan.original_primary
  pub checked : (u : Unit) × (writable_candidate_check plan.original_primary plan.candidate ≡ ok u)

abbrev WithPrimary : ClusterView → NodeState → Type 0
WithPrimary view n = primary_node view ≡ some n

primary_or_err-some :
    (spec : ClusterSpec) (found : Option NodeState) {n : NodeState}
    → primary_or_err spec found ≡ ok n
    → found ≡ some n
primary_or_err-some spec none h = cc
primary_or_err-some spec (some m) h = ap some (ok-injective h)

pub plan_for-IsPlanned :
    (spec : ClusterSpec) (select : ClusterView → Result Text NodeState) (now : ℕ)
    (view : ClusterView) {plan : SwitchoverPlan}
    → plan_for spec select now view ≡ ok plan
    → IsPlanned spec view plan
unfolding plan_for
plan_for-IsPlanned spec select now view h =
    let (no_errors, h1) = test-eq-ok (has_errors (assess_replication spec view)) _ _ h in
    let (primary, e, h2) = >>=-eq-ok (primary_or_err spec (primary_node view)) _ h1 in
    let (candidate, e1, h3) = >>=-eq-ok (select view) _ h2 in
    let (passed, e2, h4) = >>=-eq-ok (writable_candidate_check primary candidate) _ h3 in
    subst (IsPlanned spec view) (ok-injective h4) (
      unfold plan_of in
      record {
        no_errors = no_errors;
        primary = primary_or_err-some spec (primary_node view) e;
        checked = (passed, e2);
      })

pub plan_for-plan_of :
    (spec : ClusterSpec) (select : ClusterView → Result Text NodeState) (now : ℕ)
    (view : ClusterView) {plan : SwitchoverPlan}
    → plan_for spec select now view ≡ ok plan
    → (primary : NodeState) × (candidate : NodeState) × (plan_of spec primary candidate now ≡ plan)
unfolding plan_for
plan_for-plan_of spec select now view h =
    let (no_errors, h1) = test-eq-ok (has_errors (assess_replication spec view)) _ _ h in
    let (primary, e, h2) = >>=-eq-ok (primary_or_err spec (primary_node view)) _ h1 in
    let (candidate, e1, h3) = >>=-eq-ok (select view) _ h2 in
    let (passed, e2, h4) = >>=-eq-ok (writable_candidate_check primary candidate) _ h3 in
    (primary, candidate, ok-injective h4)

-- Where the candidate of a planned switchover takes writes, from its clients or from
-- administrators, every transaction of its GTID set is in the original primary's, if both sets can
-- be read.
pub plan_for-keeps :
    (spec : ClusterSpec) (select : ClusterView → Result Text NodeState) (now : ℕ)
    (view : ClusterView) {plan : SwitchoverPlan} {s t : GtidSet} (sid : Text) (n : ℕ)
    → plan_for spec select now view ≡ ok plan
    → is_writable plan.candidate ≡ true
    → parse plan.candidate.gtid_executed ≡ ok s
    → parse plan.original_primary.gtid_executed ≡ ok t
    → member s sid n ≡ true
    → member t sid n ≡ true
unfolding writable_candidate_check
plan_for-keeps spec select now view {plan} sid n h writable e e' m =
    let (u, passed) = (plan_for-IsPlanned spec select now view h).checked in
    let (r, found, nil) =
      no_errant-nil plan.original_primary plan.candidate
        (candidate_errant_gtid plan.original_primary plan.candidate)
        (behind_true (is_writable plan.candidate) _ _ writable passed) in
    candidate_errant_gtid-nil plan.original_primary plan.candidate sid n e e' found nil m
