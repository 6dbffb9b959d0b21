-- ===== src/WriterEndpoint.antt =====
-- internal/writerendpoint/switch.go: the commands that check, switch and verify the writer endpoint.
pub mod Address
pub mod Guard
mod Tests
use mha_go.Base.{
  ℕ, ℤ, pos, Bool, true, false, Text, codes, text_eq, is_nil, trim_space, to_lower, List, [], ◌∷◌,
  ◌++◌, Option, none, some, if◌then◌else◌, ◌||◌, Result, ok, err, print_int, parse_int, cut_last,
}
use mha_go.Domain.Spec.{ClusterSpec, NodeSpec}
use mha_go.Domain.View.{NodeState}
use mha_go.Domain.Plan.{FailoverPlan}
use mha_go.Domain.Switchover.{SwitchoverPlan}
use mha_go.Effects.{Effect, Env, call, then_do}

-- `NodeSpec.Address` of internal/domain/types.go: `fmt.Sprintf("%s:%d", n.Host, n.Port)`.
unfoldable pub address : NodeSpec → Text
unfolding print_int
address n = n.host ++ (58 ∷ print_int n.port)

abbrev pub port_or_zero : Option ℤ → ℤ
port_or_zero none = pos 0
port_or_zero (some p) = p

abbrev pub host_port_of : Text → Option (Text × Text) → Text × ℤ
host_port_of addr none = (addr, pos 0)
host_port_of addr (some (host, port)) = (host, port_or_zero (parse_int port))

-- `AddrHostPort`
unfoldable pub addr_host_port : Text → Text × ℤ
unfolding parse_int cut_last
addr_host_port addr = host_port_of addr (cut_last 58 addr)

-- A shell command with the variables that it is given beside the process's own.
pub record Script : Type 0 where
  pub command : Text
  pub variables : List (Text × Text)

pub data EndpointKind : Type 0 where
  no_endpoint scripted unsupported : EndpointKind

-- The `switch` on the normalized kind.
unfoldable pub kind_of : Text → EndpointKind
unfolding text_eq
kind_of kind =
    if is_nil kind || (text_eq kind (codes "none") || text_eq kind (codes "off"))
    then no_endpoint
    else if text_eq kind (codes "vip") || text_eq kind (codes "proxy")
    then scripted
    else unsupported

-- `strings.ToLower(strings.TrimSpace(spec.WriterEndpoint.Kind))`
unfoldable pub endpoint_kind : ClusterSpec → Text
unfolding to_lower trim_space
endpoint_kind spec = to_lower (trim_space spec.writer_endpoint.kind)

-- What the functions return: the error, and the trace behind them.
abbrev pub Done : Type 0
Done = Option Text × List (Effect Script)

unfoldable pub unsupported_text : ClusterSpec → Text
unsupported_text spec =
    codes "unsupported writer_endpoint kind \"" ++ (spec.writer_endpoint.kind ++ codes "\"")

unfoldable pub no_command_text : ClusterSpec → Text
unfolding endpoint_kind
no_command_text spec =
    codes "writer_endpoint kind \""
    ++ (endpoint_kind spec
        ++ codes "\" requires writer_endpoint.command or env MHA_WRITER_ENDPOINT_COMMAND")

module _ (env : Env Script) (getenv : Text → Text) (spec : ClusterSpec)
    (new_primary old_primary : NodeState) where
  -- A configured command, or else the one in a variable of the process; both are trimmed.
  unfoldable pub command_or_env : Text → Text → Text
  unfolding trim_space
  command_or_env command name =
      let cmd = trim_space command in if is_nil cmd then trim_space (getenv name) else cmd

  unfoldable pub switch_command : Result Text Text
  unfolding command_or_env no_command_text
  switch_command =
      let cmd = command_or_env spec.writer_endpoint.command (codes "MHA_WRITER_ENDPOINT_COMMAND") in
      if is_nil cmd then err (no_command_text spec) else ok cmd

  unfoldable pub script_of : Text → Text → Script
  unfolding addr_host_port print_int
  script_of action command =
      let (new_host, new_port) = addr_host_port new_primary.address in
      let (old_host, old_port) = addr_host_port old_primary.address in
      record {
        command = command;
        variables =
            (codes "MHA_CLUSTER", spec.name)
            ∷ (codes "MHA_WRITER_ENDPOINT_ACTION", action)
            ∷ (codes "MHA_WRITER_ENDPOINT_KIND", spec.writer_endpoint.kind)
            ∷ (codes "MHA_WRITER_ENDPOINT_TARGET", spec.writer_endpoint.target)
            ∷ (codes "MHA_NEW_PRIMARY_ID", new_primary.id)
            ∷ (codes "MHA_NEW_PRIMARY_ADDRESS", new_primary.address)
            ∷ (codes "MHA_NEW_PRIMARY_HOST", new_host)
            ∷ (codes "MHA_NEW_PRIMARY_PORT", print_int new_port)
            ∷ (codes "MHA_OLD_PRIMARY_ID", old_primary.id)
            ∷ (codes "MHA_OLD_PRIMARY_ADDRESS", old_primary.address)
            ∷ (codes "MHA_OLD_PRIMARY_HOST", old_host)
            ∷ (codes "MHA_OLD_PRIMARY_PORT", print_int old_port)
            ∷ [];
      }

  abbrev pub script_error : Text → Option Text → Option Text
  script_error action none = none
  script_error action (some e) =
      some (codes "writer endpoint " ++ (action ++ (codes " script: " ++ e)))

  -- `runScript`; the environment's answer is the command's error with its output.
  unfoldable pub run_script : Text → Text → List (Effect Script) → Done
  unfolding script_of
  run_script action command t =
      let e = call (script_of action command) in
      (script_error action (env.error_of t e), then_do t e)

  abbrev pub run_if : Text → Text → List (Effect Script) → Done
  run_if action command t = if is_nil command then (none, t) else run_script action command t

  -- Behind `switchCommand`.
  abbrev pub precheck_behind : List (Effect Script) → Result Text Text → Done
  precheck_behind t (err e) = (some e, t)
  precheck_behind t (ok command) =
      run_if (codes "precheck")
        (command_or_env spec.writer_endpoint.precheck_command
          (codes "MHA_WRITER_ENDPOINT_PRECHECK_COMMAND"))
        t

  abbrev pub switch_behind : List (Effect Script) → Result Text Text → Done
  switch_behind t (err e) = (some e, t)
  switch_behind t (ok command) = run_script (codes "switch") command t

  abbrev pub precheck_in : List (Effect Script) → EndpointKind → Done
  precheck_in t no_endpoint = (none, t)
  precheck_in t scripted = precheck_behind t switch_command
  precheck_in t unsupported = (some (unsupported_text spec), t)

  abbrev pub verify_in : List (Effect Script) → EndpointKind → Done
  verify_in t no_endpoint = (none, t)
  verify_in t scripted =
      run_if (codes "verify")
        (command_or_env spec.writer_endpoint.verify_command
          (codes "MHA_WRITER_ENDPOINT_VERIFY_COMMAND"))
        t
  verify_in t unsupported = (some (unsupported_text spec), t)

  abbrev pub switch_in : List (Effect Script) → EndpointKind → Done
  switch_in t no_endpoint = (none, t)
  switch_in t scripted = switch_behind t switch_command
  switch_in t unsupported = (some (unsupported_text spec), t)

  -- `PrecheckWithNodes`
  unfoldable pub precheck_with_nodes : List (Effect Script) → Done
  unfolding kind_of endpoint_kind run_script
  precheck_with_nodes t = precheck_in t (kind_of (endpoint_kind spec))

  -- `VerifyWithNodes`
  unfoldable pub verify_with_nodes : List (Effect Script) → Done
  unfolding kind_of endpoint_kind run_script
  verify_with_nodes t = verify_in t (kind_of (endpoint_kind spec))

  -- `SwitchWithNodes`
  unfoldable pub switch_with_nodes : List (Effect Script) → Done
  unfolding kind_of endpoint_kind run_script
  switch_with_nodes t = switch_in t (kind_of (endpoint_kind spec))

-- With the nodes of a plan.
module _ (env : Env Script) (getenv : Text → Text) (spec : ClusterSpec) where
  -- `Switch`
  unfoldable pub switch_for_failover : FailoverPlan → List (Effect Script) → Done
  unfolding switch_with_nodes
  switch_for_failover plan = switch_with_nodes env getenv spec plan.candidate plan.old_primary

  -- `Precheck`
  unfoldable pub precheck_for_failover : FailoverPlan → List (Effect Script) → Done
  unfolding precheck_with_nodes
  precheck_for_failover plan = precheck_with_nodes env getenv spec plan.candidate plan.old_primary

  -- `Verify`
  unfoldable pub verify_for_failover : FailoverPlan → List (Effect Script) → Done
  unfolding verify_with_nodes
  verify_for_failover plan = verify_with_nodes env getenv spec plan.candidate plan.old_primary

  -- `SwitchForSwitchover`
  unfoldable pub switch_for_switchover : SwitchoverPlan → List (Effect Script) → Done
  unfolding switch_with_nodes
  switch_for_switchover plan =
      switch_with_nodes env getenv spec plan.candidate plan.original_primary
