-- ===== src/WriterEndpoint/Tests.antt =====
-- The writer endpoint of the cluster of Domain/Examples.antt.
use mha_go.Base.{pos, Text, codes, text_eq, [], none, arith, ◌≡◌, refl}
use mha_go.Domain.Spec.{NodeRole}
use mha_go.Domain.Examples.{spec, node_spec, dead_primary, candidate}
use mha_go.Effects.{Env}
use mha_go.WriterEndpoint.{Script, address, addr_host_port, precheck_with_nodes, switch_command}
use mha_go.WriterEndpoint.Address.{addr_host_port-address}
use mha_go.WriterEndpoint.Guard.{Switches, precheck_guards_switch}

abbrev sunny : Env Script
sunny = record { error_of = λ t e. none; run_id = λ t. [] }

abbrev no_variables : Text → Text
no_variables name = []

precheck_passes : (precheck_with_nodes sunny no_variables spec candidate dead_primary []).0 ≡ none
unfolding precheck_with_nodes text_eq switch_command
precheck_passes = refl

precheck_guards_switch_example : Switches sunny no_variables spec candidate dead_primary []
precheck_guards_switch_example =
    precheck_guards_switch sunny no_variables spec candidate dead_primary [] [] precheck_passes

addr_host_port-address_example :
    addr_host_port (address (node_spec (codes "db1") NodeRole.primary)) ≡ (codes "db1", pos 3306)
addr_host_port-address_example =
    addr_host_port-address (node_spec (codes "db1") NodeRole.primary) 3306 refl (omega arith)
