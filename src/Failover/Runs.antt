-- ===== src/Failover/Runs.antt =====
-- Executing the plans of `BuildPlan`: internal/controller/failover/controller.go together with
-- internal/controller/failover/executor.go.
use mha_go.Base.{ℕ, Bool, true, false, none, some, ◌≡◌, refl}
use mha_go.Domain.Spec.{ClusterSpec}
use mha_go.Domain.View.{ClusterView, NodeState}
use mha_go.Domain.Plan.{FailoverPlan}
use mha_go.Effects.{Env, then_do}
use mha_go.Failover.Readiness.{confirm_primary_failure}
use mha_go.Failover.Permission.{readiness_iff}
use mha_go.Failover.Plan.{make_plan, plan_without_steps, build_execution_steps}
use mha_go.Failover.Guarantee.{make_plan-IsPermitted, permitted-replica}
use mha_go.Failover.Executor.{Execution, execute_plan, create_effect, lease_effect}
use mha_go.Failover.Actions.{Call, Trace}
use mha_go.Failover.Executor.Log.{log}
use mha_go.Failover.Executor.Blocked.{execute_plan_blocked}
use mha_go.Failover.Executor.Order.{IsExecuted, execute_plan_ordered}

module _ (env : Env Call) (spec : ClusterSpec) (view : ClusterView) (old_primary c : NodeState)
    (now : ℕ) (dry_run : Bool) (t : Trace) where
  abbrev built : FailoverPlan
  built = make_plan spec view old_primary c now

  built-steps : built.steps ≡ build_execution_steps built
  unfolding make_plan build_execution_steps
  built-steps = refl

  built-fencing : built.requires_fencing ≡ true
  unfolding make_plan plan_without_steps
  built-fencing = refl

  built-confirmed : built.execution_permitted ≡ true → built.primary_failure_confirmed ≡ true
  built-confirmed h =
      let (r, e) = permitted-replica spec view old_primary c now h in
      let dead = ((make_plan-IsPermitted spec view old_primary c now e).0 h).dead in
      unfold make_plan plan_without_steps confirm_primary_failure in dead

  built-ready : built.execution_permitted ≡ true → built.promote_readiness_confirmed ≡ true
  built-ready h =
      let (r, e) = permitted-replica spec view old_primary c now h in
      let ready = ((make_plan-IsPermitted spec view old_primary c now e).0 h).ready in
      unfold make_plan plan_without_steps in (readiness_iff spec old_primary c e).1 ready

  -- Executing a plan that does not permit it, in a dry run or not, makes no call of the runner; an
  -- execution that comes back is blocked and not successful.
  pub failover_blocked :
      (make_plan spec view old_primary c now).execution_permitted ≡ false
      → (log env (execute_plan env spec (make_plan spec view old_primary c now) dry_run t).trace
          ≡ log env t)
        × ((x : Execution)
            → (execute_plan env spec (make_plan spec view old_primary c now) dry_run t).execution
              ≡ some x
            → (x.blocked ≡ true) × (x.succeeded ≡ false))
  failover_blocked np = execute_plan_blocked env spec built dry_run t built-steps built-fencing np

  -- Executing a plan that permits it, where the run's record is created and the lease is had, makes
  -- the calls of the plan's jobs in their order: the precheck of the writer endpoint if there is
  -- one, the fencing, every salvage action, the promotion, the repointing, the switch and the check
  -- of the endpoint if there is one, and the verification. It stops at the first failure other than
  -- that of a salvage action that is not required, it has succeeded exactly if there is no such
  -- failure, and it is not blocked.
  pub failover_ordered :
      (make_plan spec view old_primary c now).execution_permitted ≡ true
      → env.error_of t (create_effect env spec (make_plan spec view old_primary c now) dry_run)
        ≡ none
      → env.error_of
          (then_do t (create_effect env spec (make_plan spec view old_primary c now) dry_run))
          (lease_effect env spec (make_plan spec view old_primary c now) dry_run)
        ≡ none
      → IsExecuted env
          (make_plan spec view old_primary c now)
          t
          (execute_plan env spec (make_plan spec view old_primary c now) dry_run t)
  failover_ordered permitted created leased =
      execute_plan_ordered env spec built dry_run t built-steps (built-confirmed permitted)
        (built-ready permitted) built-fencing permitted created leased
