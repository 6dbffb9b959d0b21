-- ===== src/Effects/Leased.antt =====
-- What a trace does to leases, and the calls of the runner between.
use mha_go.Base.{
  ℤ, Text, List, [], ◌∷◌, ◌++◌, append-nil, append_assoc, map, All, All-append, Option, none, some,
  ◌≡◌, ◌⊎◌, refl, sym, ap, ◌∙◌, inl, inr,
}
use mha_go.Effects.{
  Effect, create_run, append_event, update_run, acquire, release, dispatch, call, Env, then_do,
}

-- A lease that is taken or released, by its key and its owner, and a call of the runner.
pub data Move (C : Type 0) : Type 0 where
  took gave : Text → Text → Move C
  made : C → Move C

-- Effects that do nothing to a lease.
abbrev pub IsFree : {C : Type 0} → Effect C → Type 0
IsFree (acquire k o d) = ⊥
IsFree (release k o) = ⊥
IsFree (create_run n k s m) = Unit {0}
IsFree (append_event r e) = Unit {0}
IsFree (update_run r s m) = Unit {0}
IsFree (dispatch e) = Unit {0}
IsFree (call c) = Unit {0}

-- A trace behind which nothing was done to a lease.
abbrev pub Extends : {C : Type 0} → List (Effect C) → List (Effect C) → Type 0
Extends {C} t t' = (u : List (Effect C)) × (t' ≡ t ++ u) × All IsFree u

pub Extends-refl : {C : Type 0} (t : List (Effect C)) → Extends t t
Extends-refl t = ([], sym (append-nil t), tt)

pub Extends-trans :
    {C : Type 0} (t t' t'' : List (Effect C)) → Extends t t' → Extends t' t'' → Extends t t''
Extends-trans t t' t'' (u, e, f) (v, d, g) =
    (u ++ v, d ∙ (ap (λ x. x ++ v) e ∙ append_assoc t u v), All-append IsFree u v f g)

pub Extends-append : {C : Type 0} (t u : List (Effect C)) → All IsFree u → Extends t (t ++ u)
Extends-append t u f = (u, refl, f)

module _ {C : Type 0} (env : Env C) where
  -- A lease is taken only where the answer is no error.
  abbrev pub taken : Text → Text → Option Text → List (Move C)
  taken k o none = took k o ∷ []
  taken k o (some e) = []

  abbrev pub moved : List (Effect C) → Effect C → List (Move C)
  moved t (acquire k o d) = taken k o (env.error_of t (acquire k o d))
  moved t (release k o) = gave k o ∷ []
  moved t (call c) = made c ∷ []
  moved t (create_run n k s m) = []
  moved t (append_event r e) = []
  moved t (update_run r s m) = []
  moved t (dispatch e) = []

  unfoldable pub moves_from : List (Effect C) → List (Effect C) → List (Move C)
  moves_from done [] = []
  moves_from done (e ∷ t) = moved done e ++ moves_from (done ++ (e ∷ [])) t

  -- The moves of a trace in order.
  unfoldable pub moves : List (Effect C) → List (Move C)
  moves t = moves_from [] t

  moves_from-append :
      (done t u : List (Effect C))
      → moves_from done (t ++ u) ≡ moves_from done t ++ moves_from (done ++ t) u
  unfolding moves_from
  moves_from-append done [] u = ap (λ d. moves_from d u) (sym (append-nil done))
  moves_from-append done (e ∷ t) u =
      ap (λ l. moved done e ++ l)
        (moves_from-append (done ++ (e ∷ [])) t u
          ∙ ap (λ d. moves_from (done ++ (e ∷ [])) t ++ moves_from d u)
              (append_assoc done (e ∷ []) t))
      ∙ sym (
          append_assoc (moved done e) (moves_from (done ++ (e ∷ [])) t)
            (moves_from (done ++ (e ∷ t)) u))

  pub moves-append : (t u : List (Effect C)) → moves (t ++ u) ≡ moves t ++ moves_from t u
  unfolding moves
  moves-append t u = moves_from-append [] t u

  -- Effects that move nothing.
  pub moves-quiet : (t u : List (Effect C)) → moves_from t u ≡ [] → moves (t ++ u) ≡ moves t
  moves-quiet t u q = moves-append t u ∙ (ap (λ l. moves t ++ l) q ∙ append-nil (moves t))

  moves_from-free :
      (done u : List (Effect C))
      → All IsFree u
      → (calls : List C) × (moves_from done u ≡ map made calls)
  unfolding moves_from
  moves_from-free done [] f = ([], refl)
  moves_from-free done (call c ∷ u) f =
      let (calls, e) = moves_from-free (done ++ (call c ∷ [])) u f.1 in
      (c ∷ calls, ap (λ l. made c ∷ l) e)
  moves_from-free done (create_run n k s m ∷ u) f = moves_from-free _ u f.1
  moves_from-free done (append_event r e ∷ u) f = moves_from-free _ u f.1
  moves_from-free done (update_run r s m ∷ u) f = moves_from-free _ u f.1
  moves_from-free done (dispatch e ∷ u) f = moves_from-free _ u f.1
  moves_from-free done (acquire k o d ∷ u) f = elim f.0 [ ]
  moves_from-free done (release k o ∷ u) f = elim f.0 [ ]

  -- Between the traces either the lease is refused, nothing is done to a lease and no call is made,
  -- or the lease with the key is taken by the owner, then calls are made, and then it is released.
  abbrev pub IsGuarded : Text → Text → Type 0 → List (Effect C) → List (Effect C) → Type 0
  IsGuarded key owner Refused t t' =
      (Refused × (moves t' ≡ moves t))
      ⊎ ((calls : List C) × (moves t'
            ≡ moves t ++ (took key owner ∷ (map made calls ++ (gave key owner ∷ [])))))

  moves-gave :
      (key owner : Text) (t : List (Effect C))
      → moves (then_do t (release key owner)) ≡ moves t ++ (gave key owner ∷ [])
  moves-gave key owner t = moves-append t (release key owner ∷ []) ∙ (unfold moves_from in refl)

  moves-took :
      (key owner : Text) (ttl : ℤ) (t : List (Effect C))
      → env.error_of t (acquire key owner ttl) ≡ none
      → moves (then_do t (acquire key owner ttl)) ≡ moves t ++ (took key owner ∷ [])
  moves-took key owner ttl t had =
      moves-append t (acquire key owner ttl ∷ [])
      ∙ (unfold moves_from in ap (λ a. moves t ++ (taken key owner a ++ [])) had)

  -- The lease is had, and released behind effects that do nothing to it.
  pub leased-IsGuarded :
      (key owner : Text) (Refused : Type 0) (ttl : ℤ) (t t' : List (Effect C))
      → env.error_of t (acquire key owner ttl) ≡ none
      → Extends (then_do t (acquire key owner ttl)) t'
      → IsGuarded key owner Refused t (then_do t' (release key owner))
  leased-IsGuarded key owner Refused ttl t t' had (u, e, f) =
      let (calls, same) = moves_from-free (then_do t (acquire key owner ttl)) u f in
      inr (
        calls,
        moves-gave key owner t'
            ∙ (ap (λ l. l ++ (gave key owner ∷ []))
                  (ap moves e
                    ∙ (moves-append (then_do t (acquire key owner ttl)) u
                        ∙ (ap (λ l. l ++ moves_from (then_do t (acquire key owner ttl)) u)
                              (moves-took key owner ttl t had)
                            ∙ ap (λ l. (moves t ++ (took key owner ∷ [])) ++ l) same)))
                ∙ (append_assoc (moves t ++ (took key owner ∷ [])) (map made calls)
                      (gave key owner ∷ [])
                    ∙ append_assoc (moves t) (took key owner ∷ [])
                        (map made calls ++ (gave key owner ∷ [])))),
      )

  -- What is guarded behind effects that move nothing.
  pub IsGuarded-after :
      (key owner : Text) (Refused : Type 0) (t t' t'' : List (Effect C))
      → moves t' ≡ moves t
      → IsGuarded key owner Refused t' t''
      → IsGuarded key owner Refused t t''
  IsGuarded-after key owner Refused t t' t'' e (inl (refused, same)) = inl (refused, same ∙ e)
  IsGuarded-after key owner Refused t t' t'' e (inr (calls, grown)) =
      inr (
        calls,
        grown ∙ ap (λ l. l ++ (took key owner ∷ (map made calls ++ (gave key owner ∷ [])))) e,
      )
