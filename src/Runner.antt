-- ===== src/Runner.antt =====
-- The operations of internal/transport/sql/mysql.go and admin.go that the action runners of both controllers
-- call, and sequences of them that stop at the first error. The servers answer each operation, after
-- whatever has been done before it. Closing a connection is left out: its error is not looked at.
pub mod Grows
pub mod Switch
pub mod Failover
mod Tests
use mha_go.Base.{ℤ, Bool, true, false, Text, List, [], ◌∷◌, ◌++◌, Result, ok, err, map_err}
use mha_go.Domain.Spec.{NodeSpec}
use mha_go.Domain.View.{CapabilitySet}

pub data SqlOp : Type 0 where
  open_db : NodeSpec → SqlOp
  fence_read_only : NodeSpec → CapabilitySet → SqlOp
  stable_gtid : NodeSpec → ℤ → SqlOp
  wait_executed : NodeSpec → Text → ℤ → SqlOp
  promote_replica : NodeSpec → SqlOp
  resolve_password : Text → SqlOp
  repoint_to_source : NodeSpec → NodeSpec → Text → SqlOp

-- `degraded` is an error that `IsReadOnlyFenceDegraded` knows.
pub data SqlError : Type 0 where
  failed degraded : Text → SqlError

abbrev pub error_text : SqlError → Text
error_text (failed e) = e
error_text (degraded e) = e

-- The operations so far, each with its answer.
abbrev pub SqlLog : Type 0
SqlLog = List (SqlOp × Result SqlError Text)

-- The answer to an operation behind a log; operations that return no text answer [].
abbrev pub Servers : Type 0
Servers = SqlLog → SqlOp → Result SqlError Text

abbrev pub Act : Type 0 → Type 0
Act A = SqlLog → Result Text A × SqlLog

abbrev pub give : {A : Type 0} → A → Act A
give a t = (ok a, t)

abbrev pub fail : {A : Type 0} → Text → Act A
fail e t = (err e, t)

abbrev pub from : {A : Type 0} → Result Text A → Act A
from r t = (r, t)

abbrev pub go_on : {A B : Type 0} → (A → Act B) → Result Text A × SqlLog → Result Text B × SqlLog
go_on rest (err e, t) = (err e, t)
go_on rest (ok a, t) = rest a t

infixl 5 ◌>>=◌
abbrev pub ◌>>=◌ : {A B : Type 0} → Act A → (A → Act B) → Act B
◌>>=◌ act rest = λ t. go_on rest (act t)

-- An operation as it is; its error is a value.
unfoldable pub try : Servers → SqlOp → Act (Result SqlError Text)
try servers op t = (ok (servers t op), t ++ ((op, servers t op) ∷ []))

-- `if err != nil { return fmt.Errorf("…: %w", err) }` behind an operation.
unfoldable pub ask : Servers → (Text → Text) → SqlOp → Act Text
ask servers wrap op t =
    (map_err (λ e. wrap (error_text e)) (servers t op), t ++ ((op, servers t op) ∷ []))
