-- ===== src/Monitor/Tests.antt =====
-- The monitor's loop on the cluster of Domain/Examples.antt.
use mha_go.Base.{◌++◌, false, codes, [], ◌∷◌, some, err, ◌≡◌, refl, text_eq, find, keep}
use mha_go.Domain.Spec.{NodeRole}
use mha_go.Domain.Examples.{spec, view, node_spec}
use mha_go.Domain.View.{replica_nodes}
use mha_go.Monitor.Engine.{
  Answers, watch_of, healthy, dead_confirmed, step, rounds, threshold_of, node_spec_by_id,
  run_secondary_checks,
}
use mha_go.Monitor.Justified.{
  Reach, begins, goes_on, IsConfirmed, not_discovered, dead_confirmed_justified,
}
use mha_go.Monitor.Detects.{dead_primary_detected}

-- Nobody answers.
abbrev silence : Answers
silence = record {
  probe = λ n. some (codes "timeout");
  sees_source = λ n host port. err (codes "timeout");
  discovered = err (codes "timeout");
}

silent : run_secondary_checks spec silence view ≡ false
unfolding run_secondary_checks node_spec_by_id find text_eq replica_nodes keep
silent = refl

configured : node_spec_by_id spec view.primary_id ≡ some (node_spec (codes "db1") NodeRole.primary)
unfolding node_spec_by_id find text_eq
configured = refl

dead_primary_detected_example :
    (rounds spec 3
      ((silence ∷ silence ∷ silence ∷ []) ++ (silence ∷ silence ∷ []))
      (watch_of healthy 0 view)).phase
    ≡ dead_confirmed
dead_primary_detected_example =
    dead_primary_detected spec 3 view (node_spec (codes "db1") NodeRole.primary) configured silence
      (silence ∷ silence ∷ []) silence silence (codes "timeout", refl)
      ((codes "timeout", refl), ((codes "timeout", refl), tt)) refl silent not_discovered

reached :
    Reach spec
      (threshold_of spec.controller.monitor.failure_threshold)
      view
      (silence ∷ silence ∷ silence ∷ silence ∷ silence ∷ [])
      (watch_of dead_confirmed 3 view)
unfolding step threshold_of run_secondary_checks node_spec_by_id find text_eq replica_nodes keep
reached =
    goes_on silence (goes_on silence (goes_on silence (goes_on silence (goes_on silence begins))))

dead_confirmed_justified_example :
    IsConfirmed spec
      (threshold_of spec.controller.monitor.failure_threshold)
      3
      (silence ∷ silence ∷ silence ∷ silence ∷ silence ∷ [])
dead_confirmed_justified_example = dead_confirmed_justified spec reached refl
