-- ===== src/Topology/Tests.antt =====
-- The choice of a candidate in the cluster of Domain/Examples.antt.
use mha_go.Base.{true, false, ◌≡◌, refl, ok, text_eq, text_lt, is_blank, keep, In}
use mha_go.Domain.View.{NodeState}
use mha_go.Domain.Examples.{view, candidate}
use mha_go.Gtid.Recovery.{nonempty_set, compare_freshness}
use mha_go.Gtid.Parse.{parse}
use mha_go.Topology.Selector.{select_default, is_eligible, before, higher_first, candidate_score}
use mha_go.Topology.Selector.Best.{select_default_best}

chosen : select_default view ≡ ok candidate
unfolding select_default text_eq text_lt is_blank keep higher_first candidate_score nonempty_set
    parse compare_freshness
chosen = refl

select_default_best_example :
    In candidate view.nodes
    × (is_eligible candidate ≡ true)
    × ((x : NodeState) → In x view.nodes → is_eligible x ≡ true → before view x candidate ≡ false)
select_default_best_example = select_default_best view chosen
