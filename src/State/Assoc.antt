-- ===== src/State/Assoc.antt =====
-- Go maps with string keys, as association lists.
use mha_go.Base.{
  false, Text, text_eq, text_eq_refl, text_eq_sound, List, [], ◌∷◌, Option, none, some,
  if◌then◌else◌, ◌≡◌, refl, arith, Bool-cases, inl, inr, All, sym, subst,
}

module _ {V : Type 0} where
  unfoldable pub lookup : Text → List (Text × V) → Option V
  lookup k [] = none
  lookup k ((j, v) ∷ l) = if text_eq j k then some v else lookup k l

  unfoldable pub put : Text → V → List (Text × V) → List (Text × V)
  put k v [] = (k, v) ∷ []
  put k v ((j, w) ∷ l) = if text_eq j k then (j, v) ∷ l else (j, w) ∷ put k v l

  unfoldable pub remove : Text → List (Text × V) → List (Text × V)
  remove k [] = []
  remove k ((j, w) ∷ l) = let rest = remove k l in if text_eq j k then rest else (j, w) ∷ rest

  pub lookup-put : (k : Text) (v : V) (l : List (Text × V)) → lookup k (put k v l) ≡ some v
  unfolding lookup put
  lookup-put k v [] = rw (text_eq_refl k) refl
  lookup-put k v ((j, w) ∷ l) = ground (arith, lookup-put k v l)

  pub lookup-put_other :
      (i k : Text) (v : V) (l : List (Text × V))
      → text_eq k i ≡ false
      → lookup i (put k v l) ≡ lookup i l
  unfolding lookup put
  lookup-put_other i k v [] d = rw d refl
  lookup-put_other i k v ((j, w) ∷ l) d = elim (Bool-cases (text_eq j k)) [
    | inl e ↦
        let other : text_eq j i ≡ false =
          subst (λ x. text_eq x i ≡ false) (sym (text_eq_sound j k e)) d in
        ground arith
    | inr e ↦ ground (arith, lookup-put_other i k v l d)
  ]

  pub lookup-remove : (k : Text) (l : List (Text × V)) → lookup k (remove k l) ≡ none
  unfolding lookup remove
  lookup-remove k [] = refl
  lookup-remove k ((j, w) ∷ l) = ground (arith, lookup-remove k l)

  pub lookup-remove_other :
      (i k : Text) (l : List (Text × V)) → text_eq k i ≡ false → lookup i (remove k l) ≡ lookup i l
  unfolding lookup remove
  lookup-remove_other i k [] d = refl
  lookup-remove_other i k ((j, w) ∷ l) d = elim (Bool-cases (text_eq j k)) [
    | inl e ↦
        let other : text_eq j i ≡ false =
          subst (λ x. text_eq x i ≡ false) (sym (text_eq_sound j k e)) d in
        ground (arith, lookup-remove_other i k l d)
    | inr e ↦ ground (arith, lookup-remove_other i k l d)
  ]

  -- A predicate of all values.
  pub All-put :
      (P : V → Type 0) (k : Text) (v : V) (l : List (Text × V))
      → P v
      → All (λ e. P e.1) l
      → All (λ e. P e.1) (put k v l)
  unfolding put
  All-put P k v [] p h = (p, tt)
  All-put P k v ((j, w) ∷ l) p h = elim (Bool-cases (text_eq j k)) [
    | inl e ↦ rw e (p, h.1)
    | inr e ↦ rw e (h.0, All-put P k v l p h.1)
  ]

  pub All-lookup :
      (P : V → Type 0) (k : Text) (l : List (Text × V)) {v : V}
      → All (λ e. P e.1) l
      → lookup k l ≡ some v
      → P v
  unfolding lookup
  All-lookup P k [] h e = cc
  All-lookup P k ((j, w) ∷ l) {v} h e = elim (Bool-cases (text_eq j k)) [
    | inl t ↦ let same : w ≡ v = ground arith in subst P same h.0
    | inr t ↦ All-lookup P k l h.1 (subst (λ b. (if b then some w else lookup k l) ≡ some v) t e)
  ]
