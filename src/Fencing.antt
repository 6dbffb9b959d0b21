-- ===== src/Fencing.antt =====
-- internal/fencing/coordinator.go: the steps that fence the old primary.
pub mod Required
mod Tests
use mha_go.Base.{
  ℕ, ℤ, Bool, true, false, not, ◌&&◌, ◌||◌, Text, codes, text_eq, is_nil, is_blank, trim_space,
  to_lower, replace_char, List, [], ◌∷◌, ◌++◌, Option, none, some, if◌then◌else◌, print_int, pos,
}
use mha_go.Domain.Spec.{ClusterSpec, FencingStepSpec}
use mha_go.Domain.View.{NodeState}
use mha_go.Effects.{Effect, Env, call, then_do}
use mha_go.WriterEndpoint.{Script, addr_host_port}

-- The SQL fence, which the caller hands in, and a command.
pub data FenceCall : Type 0 where
  set_read_only : FenceCall
  run : Script → FenceCall

abbrev pub Trace : Type 0
Trace = List (Effect FenceCall)

pub data FenceKind : Type 0 where
  read_only scripted unsupported : FenceKind

-- `normalizeKind`
unfoldable pub normalize_kind : Text → Text
unfolding trim_space to_lower replace_char
normalize_kind kind = replace_char 45 95 (trim_space (to_lower kind))

-- The `switch` of `executeStep`.
unfoldable pub fence_kind : Text → FenceKind
unfolding text_eq
fence_kind kind =
    if text_eq kind (codes "read_only")
    then read_only
    else if text_eq kind (codes "command")
        || (text_eq kind (codes "vip")
            || (text_eq kind (codes "proxy")
                || (text_eq kind (codes "stonith") || text_eq kind (codes "cloud_route"))))
    then scripted
    else unsupported

abbrev pub default_step : FencingStepSpec
default_step = record { kind = codes "read_only"; required = true; command = []; timeout = pos 0 }

-- The configured steps, or else the default.
abbrev pub steps_or_default : List FencingStepSpec → List FencingStepSpec
steps_or_default [] = default_step ∷ []
steps_or_default (s ∷ l) = s ∷ l

unfoldable pub command_text : Text → Text
command_text kind = codes "fencing step \"" ++ (kind ++ codes "\" requires command")

unfoldable pub unsupported_text : FencingStepSpec → Text
unsupported_text s = codes "unsupported fencing step kind \"" ++ (s.kind ++ codes "\"")

unfoldable pub required_text : Text → Text → Text
required_text kind e = codes "required fencing step \"" ++ (kind ++ (codes "\" failed: " ++ e))

unfoldable pub kind_unset : Text
kind_unset = codes "fencing step kind must be set"

abbrev pub command_error : Option Text → Option Text
command_error none = none
command_error (some e) = some (codes "fencing command: " ++ e)

-- `has_fence` tells whether the caller hands in a SQL fence.
module _ (env : Env FenceCall) (spec : ClusterSpec) (old_primary candidate : NodeState)
    (has_fence : Bool) where
  unfoldable pub script_of : Text → Text → Script
  unfolding addr_host_port print_int
  script_of command kind =
      let (old_host, old_port) = addr_host_port old_primary.address in
      let (new_host, new_port) = addr_host_port candidate.address in
      record {
        command = command;
        variables =
            (codes "MHA_CLUSTER", spec.name)
            ∷ (codes "MHA_FENCE_KIND", kind)
            ∷ (codes "MHA_OLD_PRIMARY_ID", old_primary.id)
            ∷ (codes "MHA_OLD_PRIMARY_ADDRESS", old_primary.address)
            ∷ (codes "MHA_OLD_PRIMARY_HOST", old_host)
            ∷ (codes "MHA_OLD_PRIMARY_PORT", print_int old_port)
            ∷ (codes "MHA_NEW_PRIMARY_ID", candidate.id)
            ∷ (codes "MHA_NEW_PRIMARY_ADDRESS", candidate.address)
            ∷ (codes "MHA_NEW_PRIMARY_HOST", new_host)
            ∷ (codes "MHA_NEW_PRIMARY_PORT", print_int new_port)
            ∷ [];
      }

  -- `runCommand`; the environment's answer is the command's error with its output.
  unfoldable pub run_command : Text → Text → Trace → Option Text × Trace
  unfolding script_of
  run_command command kind t =
      let e = call (run (script_of command kind)) in (command_error (env.error_of t e), then_do t e)

  abbrev pub execute_in : FencingStepSpec → Text → Trace → FenceKind → Option Text × Trace
  execute_in s kind t read_only =
      if not has_fence
      then (some (codes "read-only fence is not available"), t)
      else (env.error_of t (call set_read_only), then_do t (call set_read_only))
  execute_in s kind t scripted =
      if is_blank s.command then (some (command_text kind), t) else run_command s.command kind t
  execute_in s kind t unsupported = (some (unsupported_text s), t)

  -- `executeStep`; its timeout cuts a call short, which then fails.
  unfoldable pub execute_step : FencingStepSpec → Text → Trace → Option Text × Trace
  unfolding run_command fence_kind is_blank
  execute_step s kind t = execute_in s kind t (fence_kind kind)

  -- What follows a step: the next round, or the return of an error.
  abbrev pub after_step :
      (Trace → Option Text × Trace)
      → FencingStepSpec
      → Text
      → Option Text × Trace
      → Option Text × Trace
  after_step later s kind (none, t) = later t
  after_step later s kind (some e, t) =
      if not s.required then later t else (some (required_text kind e), t)

  -- The loop over the steps.
  unfoldable pub fence_steps : List FencingStepSpec → Trace → Option Text × Trace
  unfolding execute_step normalize_kind
  fence_steps [] t = (none, t)
  fence_steps (s ∷ l) t =
      let kind = normalize_kind s.kind in
      if is_nil kind
      then (some kind_unset, t)
      else after_step (fence_steps l) s kind (execute_step s kind t)

  -- `FenceOldPrimary`
  unfoldable pub fence_old_primary : Trace → Option Text × Trace
  unfolding fence_steps
  fence_old_primary t = fence_steps (steps_or_default spec.fencing.steps) t
