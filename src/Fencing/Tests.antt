-- ===== src/Fencing/Tests.antt =====
-- Fencing the old primary of the cluster of Domain/Examples.antt.
use mha_go.Base.{true, [], ◌∷◌, none, text_eq, ◌≡◌, refl}
use mha_go.Base.Lists.{head}
use mha_go.Domain.Examples.{spec, dead_primary, candidate}
use mha_go.Effects.{Env, call}
use mha_go.Fencing.{FenceCall, set_read_only, fence_old_primary, default_step}
use mha_go.Fencing.Required.{IsDone, fence_old_primary-IsDone}

abbrev sunny : Env FenceCall
sunny = record { error_of = λ t e. none; run_id = λ t. [] }

fenced :
    fence_old_primary sunny spec dead_primary candidate true [] ≡ (none, call set_read_only ∷ [])
unfolding fence_old_primary text_eq
fenced = refl

fence_old_primary-IsDone_example :
    IsDone sunny spec dead_primary candidate true default_step (call set_read_only ∷ [])
fence_old_primary-IsDone_example =
    fence_old_primary-IsDone sunny spec dead_primary candidate true [] fenced head refl
