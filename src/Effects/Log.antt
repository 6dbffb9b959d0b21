-- ===== src/Effects/Log.antt =====
-- The calls in a trace of effects, with the answers they got.
use mha_go.Base.{
  Text, List, [], ◌∷◌, ◌++◌, append-nil, append_assoc, Option, ◌≡◌, refl, sym, ap, ◌∙◌,
}
use mha_go.Effects.{
  Effect, create_run, append_event, update_run, acquire, release, dispatch, call, Env,
}

abbrev pub Calls : Type 0 → Type 0
Calls C = List (C × Option Text)

module _ {C : Type 0} (env : Env C) where
  abbrev pub answer : List (Effect C) → Effect C → Calls C
  answer t (call c) = (c, env.error_of t (call c)) ∷ []
  answer t (create_run n k s m) = []
  answer t (append_event r e) = []
  answer t (update_run r s m) = []
  answer t (acquire k o d) = []
  answer t (release k o) = []
  answer t (dispatch e) = []

  unfoldable pub log_from : List (Effect C) → List (Effect C) → Calls C
  log_from done [] = []
  log_from done (e ∷ t) = answer done e ++ log_from (done ++ (e ∷ [])) t

  -- The calls of a trace in order, each with what the environment answered at that point.
  unfoldable pub log : List (Effect C) → Calls C
  log t = log_from [] t

  log_from-append :
      (done t u : List (Effect C))
      → log_from done (t ++ u) ≡ log_from done t ++ log_from (done ++ t) u
  unfolding log_from
  log_from-append done [] u = ap (λ d. log_from d u) (sym (append-nil done))
  log_from-append done (e ∷ t) u =
      ap (λ l. answer done e ++ l)
        (log_from-append (done ++ (e ∷ [])) t u
          ∙ ap (λ d. log_from (done ++ (e ∷ [])) t ++ log_from d u) (append_assoc done (e ∷ []) t))
      ∙ sym (
          append_assoc (answer done e) (log_from (done ++ (e ∷ [])) t)
            (log_from (done ++ (e ∷ t)) u))

  pub log-append : (t u : List (Effect C)) → log (t ++ u) ≡ log t ++ log_from t u
  unfolding log
  log-append t u = log_from-append [] t u

  -- Effects of which none is a call.
  abbrev pub IsQuiet : List (Effect C) → Type 0
  IsQuiet u = (t : List (Effect C)) → log_from t u ≡ []

  pub log-quiet : (t u : List (Effect C)) → IsQuiet u → log (t ++ u) ≡ log t
  log-quiet t u q = log-append t u ∙ (ap (λ l. log t ++ l) (q t) ∙ append-nil (log t))

  pub log-call :
      (t : List (Effect C)) (c : C)
      → log (t ++ (call c ∷ [])) ≡ log t ++ ((c, env.error_of t (call c)) ∷ [])
  log-call t c = log-append t (call c ∷ []) ∙ (unfold log_from in refl)
