-- ===== src/Domain/Run.antt =====
-- The run records of internal/domain/types.go.
use mha_go.Base.{ℕ, Text, List}
use mha_go.Domain.View.{EventSeverity}

pub data RunKind : Type 0 where
  monitor check_repl failover switch : RunKind

pub data RunStatus : Type 0 where
  unset pending running succeeded failed aborted : RunStatus

pub record RunEvent : Type 0 where
  pub sequence : ℕ
  pub at : ℕ
  pub phase : Text
  pub severity : EventSeverity
  pub message : Text
  pub metadata : List (Text × Text)

pub record RunRecord : Type 0 where
  pub id : Text
  pub cluster : Text
  pub kind : RunKind
  pub status : RunStatus
  pub started_at : ℕ
  pub updated_at : ℕ
  pub summary : Text
  pub events : List RunEvent
