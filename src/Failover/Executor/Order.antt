-- ===== src/Failover/Executor/Order.antt =====
-- Which calls internal/controller/failover/executor.go makes for a permitted plan, and in which
-- order.
use mha_go.Base.{
  ℕ, suc, ◌+◌, Bool, true, false, not, ◌&&◌, Text, List, [], ◌∷◌, ◌++◌, map, Option, none, some,
  ◌≡◌, refl, sym, ap, subst, ◌∙◌, arith, get_elem?,
}
use mha_go.Domain.Spec.{ClusterSpec}
use mha_go.Domain.Plan.{
  SalvageAction, StepName, precheck_writer_endpoint, fence_old_primary, repoint_replicas,
  switch_writer_endpoint, verify_writer_endpoint, verify_cluster, FailoverStep, FailoverPlan,
}
use mha_go.Effects.{Env, release, then_do}
use mha_go.Failover.Plan.{build_execution_steps, gated, salvage_step, steps_if}
use mha_go.Failover.Executor.{
  run_steps, is_none, Execution, Outcome, execution_of, conclude, execute_plan, execute_held,
  create_effect, lease_effect, start_hook, start_progress, create_outcome, lease_outcome, hook,
}
use mha_go.Failover.Actions.{
  Call, precheck, fence, switch_endpoint, verify_endpoint, salvage, Trace, Progress,
}
use mha_go.Failover.Executor.Log.{Log, log, log_from, log-quiet, finish-IsQuiet}
use mha_go.Failover.Executor.Jobs.{
  Job, Conforms, plain, jobs_if, Stands, empty, already, runs, salvages, plan_jobs,
}
use mha_go.Failover.Executor.Rounds.{IsRun, Stands-IsRun}

-- The steps of a permitted plan stand for its jobs.
module _ (plan : FailoverPlan) (permitted : plan.execution_permitted ≡ true) where
  gated-Stands :
      (name : StepName) {c : Call} {i : ℕ} {steps : List FailoverStep} {jobs : List Job}
      → plain name ≡ some c
      → Stands plan i steps jobs
      → Stands plan i (gated plan name ∷ steps) ((c, false) ∷ jobs)
  gated-Stands name n more = runs (rw permitted refl) (rw permitted refl) n more

  salvages-Stands :
      (steps : List FailoverStep) (jobs : List Job)
      → ((k : ℕ) → Stands plan k steps jobs)
      → (actions : List SalvageAction) (i : ℕ)
      → ((n : ℕ) → get_elem? plan.salvage_actions (n + i) ≡ get_elem? actions n)
      → Stands plan i
          (map (salvage_step plan) actions ++ steps)
          (map (λ (a : SalvageAction). (salvage a, not a.required)) actions ++ jobs)
  salvages-Stands steps jobs later [] i h = later i
  salvages-Stands steps jobs later (a ∷ actions) i h =
      salvages {i = i} (rw permitted refl) (rw permitted refl) refl refl
        (subst (λ k. get_elem? plan.salvage_actions k ≡ some a) (omega arith) (h 0))
        (salvages-Stands steps jobs later actions (i + 1) (λ n.
          subst (λ k. get_elem? plan.salvage_actions k ≡ get_elem? actions n) (omega arith)
            (h (suc n))))

  checks_if-Stands :
      (test : Bool) {steps : List FailoverStep} {jobs : List Job} {i : ℕ}
      → Stands plan i steps jobs
      → Stands plan i
          (steps_if test (gated plan precheck_writer_endpoint ∷ []) ++ steps)
          (jobs_if test ((precheck, false) ∷ []) ++ jobs)
  checks_if-Stands true more = gated-Stands precheck_writer_endpoint refl more
  checks_if-Stands false more = more

  fence_if-Stands :
      (test : Bool) {steps : List FailoverStep} {jobs : List Job} {i : ℕ}
      → test ≡ true
      → Stands plan i steps jobs
      → Stands plan i
          (steps_if test (gated plan fence_old_primary ∷ []) ++ steps)
          ((fence, false) ∷ jobs)
  fence_if-Stands true e more = gated-Stands fence_old_primary refl more
  fence_if-Stands false e more = cc

  switch_if-Stands :
      (test : Bool) {steps : List FailoverStep} {jobs : List Job} {i : ℕ}
      → Stands plan i steps jobs
      → Stands plan i
          (steps_if test
              (gated plan switch_writer_endpoint ∷ gated plan verify_writer_endpoint ∷ [])
            ++ steps)
          (jobs_if test ((switch_endpoint, false) ∷ (verify_endpoint, false) ∷ []) ++ jobs)
  switch_if-Stands true more =
      gated-Stands switch_writer_endpoint refl (gated-Stands verify_writer_endpoint refl more)
  switch_if-Stands false more = more

  build_execution_steps-Stands :
      plan.primary_failure_confirmed ≡ true
      → plan.promote_readiness_confirmed ≡ true
      → plan.requires_fencing ≡ true
      → Stands plan 0 (build_execution_steps plan) (plan_jobs plan)
  unfolding build_execution_steps plan_jobs
  build_execution_steps-Stands confirmed ready fencing = already refl refl (
      already (rw confirmed refl) (rw confirmed refl) (
        checks_if-Stands plan.requires_writer_endpoint_switch (
          fence_if-Stands plan.requires_fencing fencing (
            salvages-Stands _ _
              (λ k. runs (rw ready (rw permitted refl)) (rw ready (rw permitted refl)) refl (
                gated-Stands repoint_replicas refl (
                  switch_if-Stands plan.requires_writer_endpoint_switch
                    (gated-Stands verify_cluster refl empty))))
              plan.salvage_actions 0 (λ n. ap (get_elem? plan.salvage_actions) (omega arith))))))

-- What the execution of a permitted plan comes to: the execution, and what it adds to the log.
pub record IsExecuted (env : Env Call) (plan : FailoverPlan) (t : Trace) (o : Outcome)
    : Type 0 where
  pub execution : Execution
  pub returned : o.execution ≡ some execution
  pub logged : Log
  pub log_grows : log env o.trace ≡ log env t ++ logged
  pub conforms : Conforms (plan_jobs plan) logged execution.succeeded
  pub not_blocked : execution.blocked ≡ false

module _ (env : Env Call) (spec : ClusterSpec) (plan : FailoverPlan) (dry_run : Bool) where
  IsExecuted-conclude :
      (run_id : Text) (t : Trace) (p : Progress) (r : Progress × Option Text)
      → log env p.trace ≡ log env t
      → IsRun env (plan_jobs plan) p r
      → IsExecuted env plan t (conclude env spec plan dry_run run_id r)
  unfolding conclude
  IsExecuted-conclude run_id t p (q, none) e run = record {
    execution = execution_of dry_run (not q.blocked && is_none q.failed_step) q;
    returned = refl;
    logged = run.logged;
    log_grows =
        log-quiet env q.trace _ (finish-IsQuiet env spec plan run_id q)
        ∙ (run.log_grows ∙ ap (λ l. l ++ run.logged) e);
    conforms =
        subst (Conforms (plan_jobs plan) run.logged)
          (sym (ap (λ b. not b && is_none q.failed_step) run.not_blocked ∙ run.failed_iff))
          run.conforms;
    not_blocked = run.not_blocked;
  }
  IsExecuted-conclude run_id t p (q, some x) e run = record {
    execution = execution_of dry_run false q;
    returned = refl;
    logged = run.logged;
    log_grows =
        log-quiet env q.trace (release plan.lease_key plan.lease_owner ∷ [])
          (λ u. unfold log_from in refl)
        ∙ (run.log_grows ∙ ap (λ l. l ++ run.logged) e);
    conforms = run.conforms;
    not_blocked = run.not_blocked;
  }

  held_from : Trace → Progress
  held_from t = start_progress env spec plan dry_run (
      then_do
        (then_do (then_do t (create_effect env spec plan dry_run))
          (lease_effect env spec plan dry_run))
        (start_hook spec plan))

  log-held_from : (t : Trace) → log env (held_from t).trace ≡ log env t
  unfolding held_from start_progress
  log-held_from t =
      log-quiet env _ (start_hook spec plan ∷ []) (λ u. unfold log_from start_hook hook in refl)
      ∙ (log-quiet env _ (lease_effect env spec plan dry_run ∷ [])
            (λ u. unfold log_from lease_effect in refl)
          ∙ log-quiet env t (create_effect env spec plan dry_run ∷ [])
              (λ u. unfold log_from create_effect in refl))

  -- Executing the steps of a permitted plan, where the run's record is created and the lease is
  -- had, makes the calls of the plan's jobs in their order: the precheck of the writer endpoint if
  -- there is one, the fencing, every salvage action, the promotion, the repointing, the switch and
  -- the check of the endpoint if there is one, and the verification. It stops at the first failure
  -- other than that of a salvage action that is not required, and it has succeeded exactly if
  -- there is no such failure.
  pub execute_plan_ordered :
      (t : Trace)
      → plan.steps ≡ build_execution_steps plan
      → plan.primary_failure_confirmed ≡ true
      → plan.promote_readiness_confirmed ≡ true
      → plan.requires_fencing ≡ true
      → plan.execution_permitted ≡ true
      → env.error_of t (create_effect env spec plan dry_run) ≡ none
      → env.error_of
          (then_do t (create_effect env spec plan dry_run))
          (lease_effect env spec plan dry_run)
        ≡ none
      → IsExecuted env plan t (execute_plan env spec plan dry_run t)
  unfolding execute_plan execute_held
  execute_plan_ordered t built confirmed ready fencing permitted created leased = rw created (
      unfold create_outcome in
      rw leased (
        unfold lease_outcome in
        IsExecuted-conclude (env.run_id t) t (held_from t) _ (log-held_from t) (
          unfold held_from in
          subst
            (λ steps.
              IsRun env (plan_jobs plan) (held_from t)
                (run_steps spec plan (env.run_id t) env steps (held_from t)))
            (sym built)
            (Stands-IsRun spec plan (env.run_id t) env
              (build_execution_steps-Stands plan permitted confirmed ready fencing) (held_from t)
              record {
                unblocked = unfold start_progress in refl;
                unfailed = unfold start_progress in refl;
                index = unfold start_progress in refl;
              }))))
