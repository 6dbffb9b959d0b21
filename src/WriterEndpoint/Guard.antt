-- ===== src/WriterEndpoint/Guard.antt =====
-- What the precheck of internal/writerendpoint/switch.go says of the switch.
use mha_go.Base.{
  false, Text, List, none, is_nil, ok, err, ◌≡◌, refl, ap, ◌⊎◌, inl, inr, Bool-cases, codes,
}
use mha_go.Domain.Spec.{ClusterSpec}
use mha_go.Domain.View.{NodeState}
use mha_go.Effects.{Effect, Env}
use mha_go.WriterEndpoint.{
  Script, EndpointKind, no_endpoint, scripted, unsupported, kind_of, endpoint_kind,
  precheck_with_nodes, precheck_in, switch_with_nodes, switch_in, switch_behind, switch_command,
  command_or_env, no_command_text, run_script,
}

module _ (env : Env Script) (getenv : Text → Text) (spec : ClusterSpec)
    (new_primary old_primary : NodeState) where
  switch_command-cases :
      ((command : Text) × (switch_command env getenv spec new_primary old_primary ≡ ok command)
        × (is_nil command ≡ false))
      ⊎ (switch_command env getenv spec new_primary old_primary ≡ err (no_command_text spec))
  unfolding switch_command
  switch_command-cases =
      elim (Bool-cases (
        is_nil (
          command_or_env env getenv spec new_primary old_primary spec.writer_endpoint.command
            (codes "MHA_WRITER_ENDPOINT_COMMAND")))) [
              | inl e ↦ inr (rw e refl)
              | inr e ↦ inl (
                command_or_env env getenv spec new_primary old_primary spec.writer_endpoint.command
                    (codes "MHA_WRITER_ENDPOINT_COMMAND"),
                rw e refl,
                e,
              )
            ]

  -- What the switch does: nothing, or one command and nothing else.
  abbrev pub Switches : List (Effect Script) → Type 0
  Switches u =
      (switch_with_nodes env getenv spec new_primary old_primary u ≡ (none, u))
      ⊎ ((command : Text) × (is_nil command ≡ false)
          × (switch_with_nodes env getenv spec new_primary old_primary u
              ≡ run_script env getenv spec new_primary old_primary (codes "switch") command u))

  in_kind :
      (kind : EndpointKind) (t u : List (Effect Script))
      → (precheck_in env getenv spec new_primary old_primary t kind).0 ≡ none
      → (switch_in env getenv spec new_primary old_primary u kind ≡ (none, u))
        ⊎ ((command : Text) × (is_nil command ≡ false)
            × (switch_in env getenv spec new_primary old_primary u kind
                ≡ run_script env getenv spec new_primary old_primary (codes "switch") command u))
  in_kind no_endpoint t u h = inl refl
  in_kind unsupported t u h = cc
  in_kind scripted t u h = elim switch_command-cases [
    | inl (command, e, filled) ↦
        inr (command, filled, ap (switch_behind env getenv spec new_primary old_primary u) e)
    | inr e ↦ cc
  ]

  -- If the precheck returns no error, whenever it runs, then the switch either has nothing to do or
  -- runs one command that is not empty; it fails only as that command does.
  pub precheck_guards_switch :
      (t u : List (Effect Script))
      → (precheck_with_nodes env getenv spec new_primary old_primary t).0 ≡ none
      → Switches u
  unfolding precheck_with_nodes switch_with_nodes
  precheck_guards_switch t u h = in_kind (kind_of (endpoint_kind spec)) t u h
