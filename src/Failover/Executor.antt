-- ===== src/Failover/Executor.antt =====
-- `ExecutePlan` of internal/controller/failover/executor.go over the interfaces of Effects.antt.
pub mod Log
pub mod Blocked
pub mod Jobs
pub mod Rounds
pub mod Order
use mha_go.Base.{
  ℕ, suc, ◌+◌, Bool, true, false, not, ◌&&◌, Text, codes, List, [], ◌∷◌, ◌++◌, Option, none, some,
  is_blank, if◌then◌else◌, get_elem?, Result, ok, err,
}
use mha_go.Domain.Spec.{ClusterSpec}
use mha_go.Domain.View.{EventSeverity}
use mha_go.Domain.Run.{RunKind, RunStatus}
use mha_go.Domain.Plan.{
  SalvageKind, recover_from_old_primary, recover_from_replica, recover_from_old_primary_binlog,
  SalvageAction, StepName, acquire_lease, confirm_primary_dead, precheck_writer_endpoint,
  fence_old_primary, recover, promote_candidate, repoint_replicas, switch_writer_endpoint,
  verify_writer_endpoint, verify_cluster, StepStatus, FailoverStep, FailoverPlan,
}
use mha_go.Effects.{
  Effect, create_run, append_event, update_run, acquire, release, dispatch, call, Env, then_do,
  event, HookEvent,
}
use mha_go.Failover.Actions.{
  Call, Progress, ResultStatus, StepResult, Trace, execute_step, fence, first_non_empty, invoke,
  is_recover, kind_text, no_action_text, plain_call, precheck, promote, repoint, salvage,
  salvage_call, step_text, switch_endpoint, verify, verify_endpoint,
}

unfoldable pub hook : ClusterSpec → Text → Text → List (Text × Text) → Effect Call
hook spec name node_id fields = dispatch (record {
  name = name;
  cluster = spec.name;
  run_kind = RunKind.failover;
  node_id = node_id;
  fields = fields;
})

unfoldable pub start_hook : ClusterSpec → FailoverPlan → Effect Call
unfolding hook
start_hook spec plan =
    hook spec (codes "failover.start") plan.candidate.id
      ((codes "old_primary", plan.old_primary.id) ∷ (codes "candidate", plan.candidate.id) ∷ [])

unfoldable pub abort_hook : ClusterSpec → FailoverPlan → Text → Text → Text → Effect Call
unfolding hook
abort_hook spec plan step key value =
    hook spec (codes "failover.abort") plan.candidate.id
      ((codes "failed_step", step) ∷ (key, value) ∷ [])

unfoldable pub complete_hook : ClusterSpec → FailoverPlan → Effect Call
unfolding hook
complete_hook spec plan =
    hook spec (codes "failover.complete") plan.candidate.id
      ((codes "new_primary", plan.candidate.id) ∷ (codes "old_primary", plan.old_primary.id) ∷ [])

-- The hook behind a completed step, where the step has one.
unfoldable pub step_hook : ClusterSpec → FailoverPlan → StepName → Trace
unfolding hook
step_hook spec plan fence_old_primary =
    hook spec (codes "failover.fence") plan.old_primary.id
      ((codes "fenced_node", plan.old_primary.id) ∷ [])
    ∷ []
step_hook spec plan promote_candidate =
    hook spec (codes "failover.promote") plan.candidate.id
      ((codes "new_primary", plan.candidate.id) ∷ [])
    ∷ []
step_hook spec plan switch_writer_endpoint =
    hook spec (codes "failover.writer_switched") plan.candidate.id
      ((codes "new_primary", plan.candidate.id) ∷ (codes "old_primary", plan.old_primary.id) ∷ [])
    ∷ []
step_hook spec plan _ = []

abbrev pub result : StepName → ResultStatus → Text → StepResult
result name status message = record { name = name; status = status; message = message }

abbrev pub add_result : Progress → StepResult → Progress
add_result p r = record p { results = p.results ++ (r ∷ []) }

unfoldable pub skip_text : Text
skip_text = codes "skipped because a previous step blocked execution"

unfoldable pub satisfied_text : Text
satisfied_text = codes "precondition already satisfied during planning"

-- The results of the steps behind one that blocks.
unfoldable pub skip_all : List FailoverStep → List StepResult
skip_all [] = []
skip_all (s ∷ steps) = result s.name ResultStatus.skipped skip_text ∷ skip_all steps

-- How a round of the loop ends: with the next round, with `break`, or with `return`.
pub data Flow : Type 0 where
  next stop : Flow
  abort : Text → Flow

-- Goes on with the next round, or leaves the loop.
abbrev pub proceed : (Progress → Progress × Option Text) → Progress × Flow → Progress × Option Text
proceed rounds (p, next) = rounds p
proceed rounds (p, stop) = (p, none)
proceed rounds (p, abort e) = (p, some e)

unfoldable pub status_text : StepStatus → Text
status_text StepStatus.pending = codes "pending"
status_text StepStatus.completed = codes "completed"
status_text StepStatus.blocked = codes "blocked"

unfoldable pub unexecutable_text : StepStatus → Text
unexecutable_text s = codes "step status \"" ++ (status_text s ++ codes "\" is not executable")

abbrev pub is_completed : StepStatus → Bool
is_completed StepStatus.completed = true
is_completed _ = false

abbrev pub is_pending : StepStatus → Bool
is_pending StepStatus.pending = true
is_pending _ = false

module _ (spec : ClusterSpec) (plan : FailoverPlan) (run_id : Text) where
  -- A step that blocks: its result, its event, and the results of the remaining steps.
  unfoldable pub block_step : FailoverStep → List FailoverStep → Progress → Progress
  block_step s rest p =
      let message = first_non_empty s.reason (codes "step is blocked") in
      record p {
        blocked = true;
        failed_step = some s.name;
        results = p.results ++ (result s.name ResultStatus.blocked message ∷ skip_all rest);
        trace =
            then_do p.trace
              (append_event run_id (event (step_text s.name) EventSeverity.warn message));
      }

  -- A failed salvage step that is not required.
  unfoldable pub warn_step : FailoverStep → Text → Progress → Progress
  warn_step s e p = record p {
    results =
        p.results
        ++ (result s.name ResultStatus.warned (codes "salvage failed (availability-first): " ++ e)
            ∷ []);
    trace = then_do p.trace (
        append_event run_id (
          event (step_text s.name) EventSeverity.warn
            (codes "salvage step failed, proceeding (availability-first): " ++ e)));
  }

  -- Any other failed step.
  unfoldable pub fail_step : FailoverStep → Text → Progress → Progress
  fail_step s e p = record p {
    failed_step = some s.name;
    results = p.results ++ (result s.name ResultStatus.failed e ∷ []);
    trace =
        p.trace
        ++ (append_event run_id (event (step_text s.name) EventSeverity.error e)
            ∷ update_run run_id RunStatus.failed e
            ∷ abort_hook spec plan (step_text s.name) (codes "error") e
            ∷ []);
  }

  unfoldable pub complete_step : FailoverStep → Progress → Progress
  complete_step s p =
      let message = codes "step executed successfully" in
      record p {
        results = p.results ++ (result s.name ResultStatus.completed message ∷ []);
        trace =
            p.trace
            ++ (append_event run_id (event (step_text s.name) EventSeverity.info message)
                ∷ step_hook spec plan s.name);
      }

  -- What follows `executeStep`.
  unfoldable pub after_step : FailoverStep → Option Text → Progress → Progress × Flow
  unfolding warn_step fail_step complete_step
  after_step s none p = (complete_step s p, next)
  after_step s (some e) p =
      if is_recover s.name && not s.required
      then (warn_step s e p, next)
      else (fail_step s e p, abort e)

  module _ (env : Env Call) where
    -- A step with the status "pending".
    unfoldable pub run_pending : FailoverStep → Progress → Progress × Flow
    unfolding execute_step after_step
    run_pending s p =
        let (e, i, t) = execute_step env plan s.name p.salvage_index p.trace in
        after_step s e (record p { salvage_index = i; trace = t })

    -- One round of the loop over `plan.Steps`.
    unfoldable pub round : FailoverStep → List FailoverStep → Progress → Progress × Flow
    round s rest p =
        if p.blocked
        then (add_result p (result s.name ResultStatus.skipped skip_text), next)
        else if s.blocking
        then (block_step s rest p, stop)
        else if is_completed s.status
        then (add_result p (result s.name ResultStatus.completed satisfied_text), next)
        else if not (is_pending s.status)
        then (add_result p (result s.name ResultStatus.skipped (unexecutable_text s.status)), next)
        else run_pending s p

    unfoldable pub run_steps : List FailoverStep → Progress → Progress × Option Text
    run_steps [] p = (p, none)
    run_steps (s ∷ rest) p = proceed (run_steps rest) (round s rest p)

-- `FailoverExecution`, less its times and its copy of the plan.
pub record Execution : Type 0 where
  pub dry_run : Bool
  pub succeeded : Bool
  pub blocked : Bool
  pub failed_step : Option StepName
  pub results : List StepResult

abbrev pub is_none {ℓ} : {A : Type ℓ} → Option A → Bool
is_none none = true
is_none (some a) = false

abbrev pub execution_of : Bool → Bool → Progress → Execution
execution_of dry_run succeeded p = record {
  dry_run = dry_run;
  succeeded = succeeded;
  blocked = p.blocked;
  failed_step = p.failed_step;
  results = p.results;
}

unfoldable pub failed_text : Option StepName → Text
failed_text none = []
failed_text (some name) = step_text name

-- The hook and the final status behind the loop.
unfoldable pub finish : ClusterSpec → FailoverPlan → Text → Progress → Trace
finish spec plan run_id p =
    if p.blocked
    then abort_hook spec plan (failed_text p.failed_step) (codes "reason") (codes "blocked")
      ∷ update_run run_id RunStatus.aborted
          (codes "failover execution blocked at " ++ failed_text p.failed_step)
      ∷ []
    else if not (is_none p.failed_step)
    then update_run run_id RunStatus.failed
        (codes "failover execution failed at " ++ failed_text p.failed_step)
      ∷ []
    else complete_hook spec plan
      ∷ update_run run_id RunStatus.succeeded (codes "failover execution completed")
      ∷ []

-- What `ExecutePlan` returns: the execution, where there is one, and the error.
pub record Outcome : Type 0 where
  pub execution : Option Execution
  pub error : Option Text
  pub trace : Trace

-- `fmt.Errorf("acquire execution lease %q: %w", …)`
unfoldable pub lease_error : FailoverPlan → Text → Text
lease_error plan e = codes "acquire execution lease \"" ++ (plan.lease_key ++ (codes "\": " ++ e))

module _ (env : Env Call) (spec : ClusterSpec) (plan : FailoverPlan) (dry_run : Bool) where
  -- Behind the loop; the deferred `lease.Release` runs last.
  unfoldable pub conclude : Text → Progress × Option Text → Outcome
  unfolding finish
  conclude run_id (p, some e) = record {
    execution = some (execution_of dry_run false p);
    error = some e;
    trace = then_do p.trace (release plan.lease_key plan.lease_owner);
  }
  conclude run_id (p, none) = record {
    execution = some (execution_of dry_run (not p.blocked && is_none p.failed_step) p);
    error = none;
    trace =
        p.trace ++ (finish spec plan run_id p ++ (release plan.lease_key plan.lease_owner ∷ []));
  }

  unfoldable pub start_progress : Trace → Progress
  start_progress t = record {
    salvage_index = 0;
    blocked = false;
    failed_step = none;
    results = [];
    trace = t;
  }

  unfoldable pub create_effect : Effect Call
  create_effect =
      create_run spec.name RunKind.failover RunStatus.running (codes "executing failover plan")

  unfoldable pub lease_effect : Effect Call
  lease_effect = acquire plan.lease_key plan.lease_owner spec.controller.lease.ttl

  -- With the lease held.
  unfoldable pub execute_held : Text → Trace → Outcome
  execute_held run_id t = conclude run_id (
      run_steps spec plan run_id env plan.steps (start_progress (then_do t (start_hook spec plan))))

  -- With the run's record created, and the lease's answer known.
  unfoldable pub lease_outcome : Text → Trace → Option Text → Outcome
  lease_outcome run_id t (some e) = record {
    execution = none;
    error = some (lease_error plan e);
    trace = t ++ (lease_effect ∷ update_run run_id RunStatus.failed e ∷ []);
  }
  lease_outcome run_id t none = execute_held run_id (then_do t lease_effect)

  unfoldable pub create_outcome : Trace → Option Text → Outcome
  unfolding lease_outcome
  create_outcome t (some e) = record {
    execution = none;
    error = some e;
    trace = then_do t create_effect;
  }
  create_outcome t none =
      let t' = then_do t create_effect in
      lease_outcome (env.run_id t) t' (env.error_of t' lease_effect)

  -- `ExecutePlan`
  unfoldable pub execute_plan : Trace → Outcome
  unfolding create_outcome
  execute_plan t = create_outcome t (env.error_of t create_effect)
