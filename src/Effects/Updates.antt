-- ===== src/Effects/Updates.antt =====
-- What a trace writes to the run records.
use mha_go.Base.{Text, List, [], ◌∷◌, ◌++◌, ◌≡◌, refl, ap}
use mha_go.Domain.Run.{RunStatus}
use mha_go.Effects.{Effect, create_run, append_event, update_run, acquire, release, dispatch, call}

-- The statuses that a trace gives to runs, in order, each with the run that gets it.
unfoldable pub updates : {C : Type 0} → List (Effect C) → List (Text × RunStatus)
updates [] = []
updates (create_run n k s m ∷ t) = updates t
updates (append_event r e ∷ t) = updates t
updates (update_run r s m ∷ t) = (r, s) ∷ updates t
updates (acquire k o d ∷ t) = updates t
updates (release k o ∷ t) = updates t
updates (dispatch e ∷ t) = updates t
updates (call c ∷ t) = updates t

pub updates-append :
    {C : Type 0} (t u : List (Effect C)) → updates (t ++ u) ≡ updates t ++ updates u
unfolding updates
updates-append [] u = refl
updates-append (create_run n k s m ∷ t) u = updates-append t u
updates-append (append_event r e ∷ t) u = updates-append t u
updates-append (update_run r s m ∷ t) u = ap (λ l. (r, s) ∷ l) (updates-append t u)
updates-append (acquire k o d ∷ t) u = updates-append t u
updates-append (release k o ∷ t) u = updates-append t u
updates-append (dispatch e ∷ t) u = updates-append t u
updates-append (call c ∷ t) u = updates-append t u
