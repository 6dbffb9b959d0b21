-- ===== src/Failover/Executor/Blocked.antt =====
-- A plan that may not be executed makes no call: internal/controller/failover/executor.go on the
-- steps of internal/controller/failover/controller.go.
use mha_go.Base.{
  Bool, true, false, not, Text, List, [], ◌∷◌, ◌++◌, Option, none, some, ◌≡◌, refl, sym, ap, subst,
  ◌∙◌, arith, Bool-cases, inl, inr, ◌⊎◌,
}
use mha_go.Domain.Spec.{ClusterSpec}
use mha_go.Domain.Plan.{FailoverStep, FailoverPlan, StepStatus}
use mha_go.Domain.Run.{RunStatus}
use mha_go.Effects.{Env, then_do, update_run}
use mha_go.Failover.Plan.{build_execution_steps, steps_if, step_status}
use mha_go.Failover.Executor.{
  proceed, round, run_steps, block_step, next, stop, abort, execute_plan, lease_outcome,
  create_outcome, execute_held, conclude, start_progress, start_hook, create_effect, lease_effect,
  Execution, Outcome, add_result, result, satisfied_text,
}
use mha_go.Failover.Actions.{Call, Trace, Progress, ResultStatus}
use mha_go.Failover.Executor.Log.{log, log_from, log-quiet, finish-IsQuiet}

-- What a step that is not executed leaves as it was.
pub record IsIdle (p p' : Progress) : Type 0 where
  pub same_trace : p'.trace ≡ p.trace
  pub same_blocked : p'.blocked ≡ p.blocked
  pub same_failed : p'.failed_step ≡ p.failed_step
  pub same_index : p'.salvage_index ≡ p.salvage_index

module _ (spec : ClusterSpec) (plan : FailoverPlan) (run_id : Text) (env : Env Call) where
  pub run_steps-next :
      (s : FailoverStep) (rest : List FailoverStep) (p p' : Progress)
      → round spec plan run_id env s rest p ≡ (p', next)
      → run_steps spec plan run_id env (s ∷ rest) p ≡ run_steps spec plan run_id env rest p'
  unfolding run_steps
  run_steps-next s rest p p' e = ap (proceed (run_steps spec plan run_id env rest)) e

  pub run_steps-stop :
      (s : FailoverStep) (rest : List FailoverStep) (p p' : Progress)
      → round spec plan run_id env s rest p ≡ (p', stop)
      → run_steps spec plan run_id env (s ∷ rest) p ≡ (p', none)
  unfolding run_steps
  run_steps-stop s rest p p' e = ap (proceed (run_steps spec plan run_id env rest)) e

  pub run_steps-abort :
      (s : FailoverStep) (rest : List FailoverStep) (p p' : Progress) (x : Text)
      → round spec plan run_id env s rest p ≡ (p', abort x)
      → run_steps spec plan run_id env (s ∷ rest) p ≡ (p', some x)
  unfolding run_steps
  run_steps-abort s rest p p' x e = ap (proceed (run_steps spec plan run_id env rest)) e

  pub round_completed :
      (s : FailoverStep) (rest : List FailoverStep) (p : Progress)
      → p.blocked ≡ false
      → s.blocking ≡ false
      → s.status ≡ StepStatus.completed
      → (p' : Progress) × (round spec plan run_id env s rest p ≡ (p', next)) × IsIdle p p'
  unfolding round
  round_completed s rest p nb b e = (
    add_result p (result s.name ResultStatus.completed satisfied_text),
    ground arith,
    record { same_trace = refl; same_blocked = refl; same_failed = refl; same_index = refl },
  )

  round_blocking :
      (s : FailoverStep) (rest : List FailoverStep) (p : Progress)
      → p.blocked ≡ false
      → s.blocking ≡ true
      → round spec plan run_id env s rest p ≡ (block_step spec plan run_id s rest p, stop)
  unfolding round
  round_blocking s rest p nb b = ground arith

  -- A list of steps that starts with completed steps and then blocks.
  data Blocks : List FailoverStep → Type 0 where
    blocks : {s : FailoverStep} {rest : List FailoverStep} → s.blocking ≡ true → Blocks (s ∷ rest)
    passes :
        {s : FailoverStep} {rest : List FailoverStep}
        → s.blocking ≡ false
        → s.status ≡ StepStatus.completed
        → Blocks rest
        → Blocks (s ∷ rest)

  -- The loop left by `break`, with no call made.
  record IsBlocked (p : Progress) (r : Progress × Option Text) : Type 0 where
    blocked : r.0.blocked ≡ true
    no_error : r.1 ≡ none
    same_log : log env r.0.trace ≡ log env p.trace

  Blocks-IsBlocked :
      {steps : List FailoverStep}
      → Blocks steps
      → (p : Progress) → p.blocked ≡ false
      → IsBlocked p (run_steps spec plan run_id env steps p)
  Blocks-IsBlocked (blocks {s} {rest} b) p nb =
      rw (run_steps-stop s rest p _ (round_blocking s rest p nb b)) (record {
        blocked = unfold block_step in refl;
        no_error = refl;
        same_log = unfold block_step in log-quiet env p.trace _ (λ t. unfold log_from in refl);
      })
  Blocks-IsBlocked (passes {s} {rest} b e more) p nb =
      let (p', went, idle) = round_completed s rest p nb b e in
      let later = Blocks-IsBlocked more p' (idle.same_blocked ∙ nb) in
      rw (run_steps-next s rest p p' went) (record {
        blocked = later.blocked;
        no_error = later.no_error;
        same_log = later.same_log ∙ ap (log env) idle.same_trace;
      })

  Blocks-steps_if :
      (test : Bool) (s : FailoverStep) (rest : List FailoverStep)
      → s.blocking ≡ true
      → (test ≡ true) ⊎ Blocks rest
      → Blocks (steps_if test (s ∷ []) ++ rest)
  Blocks-steps_if true s rest b h = blocks b
  Blocks-steps_if false s rest b (inl e) = cc
  Blocks-steps_if false s rest b (inr more) = more

  not_permitted : plan.execution_permitted ≡ false → not plan.execution_permitted ≡ true
  not_permitted np = ap not np

  build-Blocks :
      plan.execution_permitted ≡ false
      → plan.requires_fencing ≡ true
      → Blocks (build_execution_steps plan)
  unfolding build_execution_steps
  build-Blocks np rf = passes refl refl (elim (Bool-cases plan.primary_failure_confirmed) [
    | inl c ↦ passes (ap not c) (ap (λ b. step_status b StepStatus.blocked) c) (
        Blocks-steps_if plan.requires_writer_endpoint_switch _ _ (not_permitted np)
          (inr (Blocks-steps_if plan.requires_fencing _ _ (not_permitted np) (inl rf))))
    | inr c ↦ blocks (ap not c)
  ])

module _ (env : Env Call) (spec : ClusterSpec) (plan : FailoverPlan) (dry_run : Bool) where
  -- What an outcome of a plan that is not permitted is like.
  record IsHarmless (t : Trace) (o : Outcome) : Type 0 where
    same_log : log env o.trace ≡ log env t
    no_success : (x : Execution) → o.execution ≡ some x → (x.blocked ≡ true) × (x.succeeded ≡ false)

  module _ (run_id : Text) (t : Trace) where
    conclude-IsHarmless :
        (p : Progress) (r : Progress × Option Text)
        → IsBlocked spec plan run_id env p r
        → IsHarmless p.trace (conclude env spec plan dry_run run_id r)
    conclude-IsHarmless p (q, none) b =
        unfold conclude in
        record {
          same_log = log-quiet env q.trace _ (finish-IsQuiet env spec plan run_id q) ∙ b.same_log;
          no_success = λ x e. ground arith;
        }
    conclude-IsHarmless p (q, some e) b = cc

    held-IsHarmless :
        plan.steps ≡ build_execution_steps plan
        → plan.requires_fencing ≡ true
        → plan.execution_permitted ≡ false
        → IsHarmless t (execute_held env spec plan dry_run run_id t)
    unfolding execute_held start_progress
    held-IsHarmless built rf np =
        let p : Progress =
          start_progress env spec plan dry_run (then_do t (start_hook spec plan)) in
        let h = conclude-IsHarmless p _ (
          Blocks-IsBlocked spec plan run_id env
            (subst (λ l. Blocks spec plan run_id env l) (sym built)
              (build-Blocks spec plan run_id env np rf))
            p refl) in
        record {
          same_log = h.same_log ∙ log-quiet env t _ (λ u. unfold log_from start_hook in refl);
          no_success = h.no_success;
        }

module _ (env : Env Call) (spec : ClusterSpec) (plan : FailoverPlan) (dry_run : Bool) where
  IsHarmless-after :
      (t u : Trace) (o : Outcome)
      → log env u ≡ log env t
      → IsHarmless env spec plan dry_run u o
      → IsHarmless env spec plan dry_run t o
  IsHarmless-after t u o e h = record { same_log = h.same_log ∙ e; no_success = h.no_success }

  lease-IsHarmless :
      (run_id : Text) (t : Trace) (answer : Option Text)
      → plan.steps ≡ build_execution_steps plan
      → plan.requires_fencing ≡ true
      → plan.execution_permitted ≡ false
      → IsHarmless env spec plan dry_run t (lease_outcome env spec plan dry_run run_id t answer)
  unfolding lease_outcome
  lease-IsHarmless run_id t (some e) built rf np = record {
    same_log =
        log-quiet env t
          (lease_effect env spec plan dry_run ∷ update_run run_id RunStatus.failed e ∷ [])
          (λ u. unfold log_from lease_effect in refl);
    no_success = λ x h. cc;
  }
  lease-IsHarmless run_id t none built rf np =
      IsHarmless-after t _ _
        (log-quiet env t (lease_effect env spec plan dry_run ∷ [])
          (λ u. unfold log_from lease_effect in refl))
        (held-IsHarmless env spec plan dry_run run_id _ built rf np)

  create-IsHarmless :
      (t : Trace) (answer : Option Text)
      → plan.steps ≡ build_execution_steps plan
      → plan.requires_fencing ≡ true
      → plan.execution_permitted ≡ false
      → IsHarmless env spec plan dry_run t (create_outcome env spec plan dry_run t answer)
  unfolding create_outcome
  create-IsHarmless t (some e) built rf np = record {
    same_log =
        log-quiet env t (create_effect env spec plan dry_run ∷ [])
          (λ u. unfold log_from create_effect in refl);
    no_success = λ x h. cc;
  }
  create-IsHarmless t none built rf np =
      IsHarmless-after t _ _
        (log-quiet env t (create_effect env spec plan dry_run ∷ [])
          (λ u. unfold log_from create_effect in refl))
        (lease-IsHarmless (env.run_id t) _ _ built rf np)

  -- Executing the steps of a plan that is not permitted makes no call of the runner, in a dry run
  -- or not; an execution that comes back is blocked and not successful.
  pub execute_plan_blocked :
      (t : Trace)
      → plan.steps ≡ build_execution_steps plan
      → plan.requires_fencing ≡ true
      → plan.execution_permitted ≡ false
      → (log env (execute_plan env spec plan dry_run t).trace ≡ log env t)
        × ((x : Execution)
            → (execute_plan env spec plan dry_run t).execution ≡ some x
            → (x.blocked ≡ true) × (x.succeeded ≡ false))
  execute_plan_blocked t built rf np =
      let h =
        create-IsHarmless t (env.error_of t (create_effect env spec plan dry_run)) built rf np in
      unfold execute_plan in (h.same_log, h.no_success)
