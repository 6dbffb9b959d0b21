-- ===== src/Effects/Jobs.antt =====
-- Logs of calls that are made one behind the other until one fails.
use mha_go.Base.{Bool, true, false, Text, List, [], ◌∷◌, Option, none, some, ◌≡◌, ◌⊎◌}
use mha_go.Effects.Log.{Calls}

-- A call, and whether its failure is passed over.
abbrev pub JobOf : Type 0 → Type 0
JobOf C = C × Bool

-- The log of an execution of the jobs: it ends after the last, or at the first failure that is not
-- passed over. The last argument tells whether all were done.
pub data Conforms {C : Type 0} : List (JobOf C) → Calls C → Bool → Type 0 where
  finished : Conforms [] [] true
  went_on :
      {c : C} {optional : Bool} {a : Option Text} {jobs : List (JobOf C)} {l : Calls C} {b : Bool}
      → (a ≡ none) ⊎ (optional ≡ true)
      → Conforms jobs l b
      → Conforms ((c, optional) ∷ jobs) ((c, a) ∷ l) b
  gave_up :
      {c : C} {e : Text} {jobs : List (JobOf C)}
      → Conforms ((c, false) ∷ jobs) ((c, some e) ∷ []) false
