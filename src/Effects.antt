-- ===== src/Effects.antt =====
-- What the controllers ask of the interfaces of internal/state/store.go, internal/hooks/interfaces.go
-- and the action runners, as a trace of effects. An environment answers each effect with an error
-- or with none, whatever has happened before it.
pub mod Log
pub mod Jobs
pub mod Updates
pub mod Leased
use mha_go.Base.{ℤ, Text, List, [], ◌∷◌, ◌++◌, Option}
use mha_go.Domain.View.{EventSeverity}
use mha_go.Domain.Run.{RunKind, RunStatus}

-- A `RunEvent` as the callers build it, with no sequence number and no time.
pub record Event : Type 0 where
  pub phase : Text
  pub severity : EventSeverity
  pub message : Text
  pub metadata : List (Text × Text)

-- `hooks.Event`
pub record HookEvent : Type 0 where
  pub name : Text
  pub cluster : Text
  pub run_kind : RunKind
  pub node_id : Text
  pub fields : List (Text × Text)

-- `C` is the type of the calls of an action runner.
pub data Effect (C : Type 0) : Type 0 where
  create_run : Text → RunKind → RunStatus → Text → Effect C
  append_event : Text → Event → Effect C
  update_run : Text → RunStatus → Text → Effect C
  acquire : Text → Text → ℤ → Effect C
  release : Text → Text → Effect C
  dispatch : HookEvent → Effect C
  call : C → Effect C

pub record Env (C : Type 0) : Type 0 where
  pub error_of : List (Effect C) → Effect C → Option Text
  pub run_id : List (Effect C) → Text

-- The trace in the order of time, behind what was done before.
abbrev pub then_do : {C : Type 0} → List (Effect C) → Effect C → List (Effect C)
then_do t e = t ++ (e ∷ [])

abbrev pub event : Text → EventSeverity → Text → Event
event phase severity message = record {
  phase = phase;
  severity = severity;
  message = message;
  metadata = [];
}
