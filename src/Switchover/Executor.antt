-- ===== src/Switchover/Executor.antt =====
-- `ExecutePlan` of internal/controller/switchover/executor.go.
use mha_go.Base.{Bool, true, false, Text, codes, List, [], ◌∷◌, ◌++◌, Option, none, some}
use mha_go.Domain.Spec.{ClusterSpec}
use mha_go.Domain.View.{EventSeverity}
use mha_go.Domain.Run.{RunKind, RunStatus}
use mha_go.Domain.Switchover.{
  SwitchStep, SwitchStatus, SwitchResult, SwitchoverStep, SwitchoverPlan, SwitchoverStepResult,
  SwitchoverExecution,
}
use mha_go.Effects.{
  Effect, create_run, append_event, update_run, acquire, release, dispatch, call, Env, then_do,
  event,
}

-- The methods of `ActionRunner` in internal/controller/switchover/actions.go.
pub data SwitchCall : Type 0 where
  precheck_endpoint lock_candidate lock_old_primary wait_catchup promote : SwitchCall
  repoint_replicas repoint_old_primary switch_endpoint verify_endpoint verify_cluster : SwitchCall

abbrev pub Trace : Type 0
Trace = List (Effect SwitchCall)

unfoldable pub step_text : SwitchStep → Text
step_text SwitchStep.precheck_writer_endpoint = codes "precheck-writer-endpoint"
step_text SwitchStep.lock_candidate = codes "lock-candidate"
step_text SwitchStep.lock_old_primary = codes "lock-old-primary"
step_text SwitchStep.wait_candidate_catchup = codes "wait-candidate-catchup"
step_text SwitchStep.promote_candidate = codes "promote-candidate"
step_text SwitchStep.repoint_replicas = codes "repoint-replicas"
step_text SwitchStep.repoint_old_primary = codes "repoint-old-primary"
step_text SwitchStep.switch_writer_endpoint = codes "switch-writer-endpoint"
step_text SwitchStep.verify_writer_endpoint = codes "verify-writer-endpoint"
step_text SwitchStep.verify = codes "verify"

-- The method that `executeStep` calls.
abbrev pub call_of : SwitchStep → SwitchCall
call_of SwitchStep.precheck_writer_endpoint = precheck_endpoint
call_of SwitchStep.lock_candidate = lock_candidate
call_of SwitchStep.lock_old_primary = lock_old_primary
call_of SwitchStep.wait_candidate_catchup = wait_catchup
call_of SwitchStep.promote_candidate = promote
call_of SwitchStep.repoint_replicas = repoint_replicas
call_of SwitchStep.repoint_old_primary = repoint_old_primary
call_of SwitchStep.switch_writer_endpoint = switch_endpoint
call_of SwitchStep.verify_writer_endpoint = verify_endpoint
call_of SwitchStep.verify = verify_cluster

abbrev pub step_result : SwitchStep → SwitchResult → Text → SwitchoverStepResult
step_result name status message = record { name = name; status = status; message = message }

unfoldable pub skipped_text : Text
skipped_text = codes "step skipped during planning"

unfoldable pub done_text : Text
done_text = codes "step executed successfully"

unfoldable pub hook : ClusterSpec → Text → Text → List (Text × Text) → Effect SwitchCall
hook spec name node_id fields = dispatch (record {
  name = name;
  cluster = spec.name;
  run_kind = RunKind.switch;
  node_id = node_id;
  fields = fields;
})

-- The variables of the loop.
pub record Progress : Type 0 where
  pub failed_step : Option SwitchStep
  pub results : List SwitchoverStepResult
  pub trace : Trace

-- What `ExecutePlan` returns: the execution, where there is one, and the error.
pub record Outcome : Type 0 where
  pub execution : Option SwitchoverExecution
  pub error : Option Text
  pub trace : Trace

abbrev pub is_none {ℓ} : {A : Type ℓ} → Option A → Bool
is_none none = true
is_none (some a) = false

-- The rest of the loop, unless the round has returned an error.
abbrev pub unless_error :
    (Progress → Progress × Option Text) → Progress × Option Text → Progress × Option Text
unless_error rest (p, none) = rest p
unless_error rest (p, some e) = (p, some e)

module _ (env : Env SwitchCall) (spec : ClusterSpec) (plan : SwitchoverPlan) (dry_run : Bool) where
  unfoldable pub transition_text : Text
  transition_text = plan.original_primary.id ++ (codes " → " ++ plan.candidate.id)

  unfoldable pub create_effect : Effect SwitchCall
  unfolding transition_text
  create_effect =
      create_run spec.name RunKind.switch RunStatus.running
        (codes "executing switchover: " ++ transition_text)

  unfoldable pub lease_key : Text
  lease_key = codes "switchover/" ++ spec.name

  unfoldable pub lease_effect : Effect SwitchCall
  unfolding lease_key
  lease_effect = acquire lease_key spec.controller.id spec.controller.lease.ttl

  -- The deferred `lease.Release`.
  unfoldable pub release_effect : Effect SwitchCall
  unfolding lease_key
  release_effect = release lease_key spec.controller.id

  unfoldable pub start_hook : Effect SwitchCall
  unfolding hook
  start_hook = hook spec (codes "switchover.start") plan.original_primary.id (
      (codes "original_primary", plan.original_primary.id)
      ∷ (codes "candidate", plan.candidate.id)
      ∷ [])

  unfoldable pub abort_hook : SwitchStep → Text → Effect SwitchCall
  unfolding hook step_text
  abort_hook name e =
      hook spec (codes "switchover.abort") []
        ((codes "failed_step", step_text name) ∷ (codes "error", e) ∷ [])

  unfoldable pub complete_hook : Effect SwitchCall
  unfolding hook
  complete_hook = hook spec (codes "switchover.complete") plan.candidate.id (
      (codes "new_primary", plan.candidate.id)
      ∷ (codes "original_primary", plan.original_primary.id)
      ∷ [])

  -- A step whose status is "skipped".
  unfoldable pub skip_step : SwitchStep → Progress → Progress
  unfolding skipped_text
  skip_step name p = record p {
    results = p.results ++ (step_result name SwitchResult.skipped skipped_text ∷ []);
  }

  unfoldable pub fail_step : Text → SwitchStep → Text → Progress → Progress
  unfolding abort_hook step_text
  fail_step run_id name e p = record p {
    failed_step = some name;
    results = p.results ++ (step_result name SwitchResult.failed e ∷ []);
    trace =
        p.trace
        ++ (append_event run_id (event (step_text name) EventSeverity.error e)
            ∷ update_run run_id RunStatus.failed e
            ∷ abort_hook name e
            ∷ []);
  }

  unfoldable pub complete_step : Text → SwitchStep → Progress → Progress
  unfolding step_text done_text
  complete_step run_id name p = record p {
    results = p.results ++ (step_result name SwitchResult.completed done_text ∷ []);
    trace =
        then_do p.trace (append_event run_id (event (step_text name) EventSeverity.info done_text));
  }

  -- What follows `executeStep`; the error is the one that the loop returns.
  unfoldable pub after_step : Text → SwitchStep → Option Text → Progress → Progress × Option Text
  unfolding fail_step complete_step
  after_step run_id name (some e) p = (fail_step run_id name e p, some e)
  after_step run_id name none p = (complete_step run_id name p, none)

  -- One round of the loop over `plan.Steps`.
  unfoldable pub round : Text → SwitchStep → SwitchStatus → Progress → Progress × Option Text
  unfolding after_step skip_step
  round run_id name SwitchStatus.skipped p = (skip_step name p, none)
  round run_id name SwitchStatus.pending p =
      let e = call (call_of name) in
      after_step run_id name (env.error_of p.trace e) (record p { trace = then_do p.trace e })

  unfoldable pub run_steps : Text → List SwitchoverStep → Progress → Progress × Option Text
  run_steps run_id [] p = (p, none)
  run_steps run_id (s ∷ rest) p =
      unless_error (run_steps run_id rest) (round run_id s.name s.status p)

  abbrev pub execution_of : Bool → Progress → SwitchoverExecution
  execution_of succeeded p = record {
    cluster_name = spec.name;
    dry_run = dry_run;
    succeeded = succeeded;
    failed_step = p.failed_step;
    step_results = p.results;
  }

  unfoldable pub completed_text : Text
  unfolding transition_text
  completed_text = codes "switchover completed: " ++ transition_text

  -- Behind the loop; the deferred `lease.Release` runs last.
  unfoldable pub conclude : Text → Progress × Option Text → Outcome
  unfolding completed_text complete_hook release_effect
  conclude run_id (p, some e) = record {
    execution = some (execution_of false p);
    error = some e;
    trace = then_do p.trace release_effect;
  }
  conclude run_id (p, none) = record {
    execution = some (execution_of (is_none p.failed_step) p);
    error = none;
    trace =
        p.trace
        ++ (update_run run_id RunStatus.succeeded completed_text
            ∷ complete_hook
            ∷ release_effect
            ∷ []);
  }

  -- With the lease held.
  unfoldable pub execute_held : Text → Trace → Outcome
  unfolding conclude run_steps start_hook
  execute_held run_id t = conclude run_id (
      run_steps run_id plan.steps
        record { failed_step = none; results = []; trace = then_do t start_hook })

  unfoldable pub lease_error : Text → Text
  unfolding lease_key
  lease_error e = codes "acquire switchover lease \"" ++ (lease_key ++ (codes "\": " ++ e))

  unfoldable pub lease_outcome : Text → Trace → Option Text → Outcome
  unfolding lease_effect lease_error execute_held
  lease_outcome run_id t (some e) = record {
    execution = none;
    error = some (lease_error e);
    trace = t ++ (lease_effect ∷ update_run run_id RunStatus.failed e ∷ []);
  }
  lease_outcome run_id t none = execute_held run_id (then_do t lease_effect)

  unfoldable pub create_outcome : Trace → Option Text → Outcome
  unfolding create_effect lease_outcome
  create_outcome t (some e) = record {
    execution = none;
    error = some e;
    trace = then_do t create_effect;
  }
  create_outcome t none =
      let t' = then_do t create_effect in
      lease_outcome (env.run_id t) t' (env.error_of t' lease_effect)

  -- `ExecutePlan`
  unfoldable pub execute_plan : Trace → Outcome
  unfolding create_outcome
  execute_plan t = create_outcome t (env.error_of t create_effect)
