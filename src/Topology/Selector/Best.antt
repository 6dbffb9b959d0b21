-- ===== src/Topology/Selector/Best.antt =====
-- The choice of internal/topology/interfaces.go is an eligible node that no eligible node precedes.
use mha_go.Base.{
  ℤ, Bool, true, false, Text, text_eq_iff, text_eq_refl, text_lt, List, [], ◌∷◌, ◌≡◌, refl, sym,
  subst, arith, In, In-cons, In-keep, keep-In, keep, Bool-cases, inl, inr, ◌⊎◌, ok, if◌then◌else◌,
}
use mha_go.Base.Lists.{head, tail}
use mha_go.Domain.View.{NodeState, ClusterView}
use mha_go.Topology.Selector.{
  higher_first, greater_first, before, insert_by, sort_by, is_eligible, select_default,
  candidate_score, first_of,
}

text_lt_irrefl : (s : Text) → text_lt s s ≡ false
unfolding text_lt
text_lt_irrefl [] = refl
text_lt_irrefl (c ∷ s) = ground (arith, text_lt_irrefl s)

-- Neither of two incomparable steps can be made comparable by going through a third.
text_lt_negtrans : (s t u : Text) → text_lt s t ≡ false → text_lt t u ≡ false → text_lt s u ≡ false
unfolding text_lt
text_lt_negtrans [] [] u h k = k
text_lt_negtrans [] (d ∷ t) u h k = cc
text_lt_negtrans (c ∷ s) t [] h k = refl
text_lt_negtrans (c ∷ s) [] (e ∷ u) h k = cc
text_lt_negtrans (c ∷ s) (d ∷ t) (e ∷ u) h k = ground (arith, text_lt_negtrans s t u)

text_lt_total : (s t : Text) → text_lt s t ≡ false → text_lt t s ≡ false → s ≡ t
unfolding text_lt
text_lt_total [] [] h k = refl
text_lt_total [] (d ∷ t) h k = cc
text_lt_total (c ∷ s) [] h k = cc
text_lt_total (c ∷ s) (d ∷ t) h k = ground (arith, text_lt_total s t)

higher_first_negtrans :
    (x y z : ℤ) (p q r : Bool)
    → (p ≡ false → q ≡ false → r ≡ false)
    → higher_first x y p ≡ false
    → higher_first y z q ≡ false
    → higher_first x z r ≡ false
unfolding higher_first
higher_first_negtrans x y z p q r later h k = ground arith

greater_first_negtrans :
    (s t u : Text) (p q r : Bool)
    → (p ≡ false → q ≡ false → r ≡ false)
    → greater_first s t p ≡ false
    → greater_first t u q ≡ false
    → greater_first s u r ≡ false
unfolding greater_first
greater_first_negtrans s t u p q r later h k = ground (
  arith,
  text_eq_iff s t,
  text_eq_iff t u,
  text_eq_iff s u,
  text_lt_negtrans u t s,
  text_lt_total s t,
  text_lt_irrefl s,
)

before_negtrans :
    (v : ClusterView) (a b c : NodeState)
    → before v a b ≡ false
    → before v b c ≡ false
    → before v a c ≡ false
unfolding before
before_negtrans v a b c =
    higher_first_negtrans (candidate_score a v) (candidate_score b v) (candidate_score c v) _ _ _ (
      higher_first_negtrans a.candidate_priority b.candidate_priority c.candidate_priority _ _ _ (
        greater_first_negtrans a.version_series b.version_series c.version_series _ _ _
          (text_lt_negtrans a.id b.id c.id)))

before_irrefl : (v : ClusterView) (a : NodeState) → before v a a ≡ false
unfolding before higher_first greater_first
before_irrefl v a = ground (arith, text_eq_refl a.version_series, text_lt_irrefl a.id)

text_lt_asym : (s t : Text) → text_lt s t ≡ true → text_lt t s ≡ false
unfolding text_lt
text_lt_asym [] [] h = refl
text_lt_asym [] (d ∷ t) h = refl
text_lt_asym (c ∷ s) [] h = cc
text_lt_asym (c ∷ s) (d ∷ t) h = ground (arith, text_lt_asym s t)

higher_first_asym :
    (x y : ℤ) (p q : Bool)
    → (p ≡ true → q ≡ false)
    → higher_first x y p ≡ true
    → higher_first y x q ≡ false
unfolding higher_first
higher_first_asym x y p q later h = ground arith

greater_first_asym :
    (s t : Text) (p q : Bool)
    → (p ≡ true → q ≡ false)
    → greater_first s t p ≡ true
    → greater_first t s q ≡ false
unfolding greater_first
greater_first_asym s t p q later h =
    ground (arith, text_eq_iff s t, text_eq_iff t s, text_lt_asym t s)

before_asym : (v : ClusterView) (a b : NodeState) → before v a b ≡ true → before v b a ≡ false
unfolding before
before_asym v a b = higher_first_asym (candidate_score a v) (candidate_score b v) _ _ (
    higher_first_asym a.candidate_priority b.candidate_priority _ _
      (greater_first_asym a.version_series b.version_series _ _ (text_lt_asym a.id b.id)))

module _ (v : ClusterView) where
  -- Nothing in the list precedes its head.
  abbrev IsLed : List NodeState → Type 0
  IsLed [] = Unit
  IsLed (m ∷ l) = (x : NodeState) → In x (m ∷ l) → before v x m ≡ false

  In-insert_by :
      {x : NodeState} (a : NodeState) (l : List NodeState)
      → In x (insert_by (before v) a l)
      → (x ≡ a) ⊎ In x l
  unfolding insert_by
  In-insert_by a [] m = In-cons m
  In-insert_by {x} a (b ∷ l) m = elim (Bool-cases (before v b a)) [
    | inl e ↦
        elim (In-cons
          (subst (λ t. In x (if t then b ∷ insert_by (before v) a l else a ∷ b ∷ l)) e m)) [
            | inl same ↦ inr (subst (λ y. In y (b ∷ l)) (sym same) head)
            | inr later ↦ elim (In-insert_by a l later) [
              | inl same ↦ inl same
              | inr old ↦ inr (tail old)
            ]
          ]
    | inr e ↦
        In-cons (subst (λ t. In x (if t then b ∷ insert_by (before v) a l else a ∷ b ∷ l)) e m)
  ]

  IsLed-keep :
      (a b : NodeState) (l : List NodeState)
      → before v b a ≡ true
      → IsLed (b ∷ l)
      → IsLed (b ∷ insert_by (before v) a l)
  IsLed-keep a b l e led x m = elim (In-cons m) [
    | inl same ↦ rw same (before_irrefl v b)
    | inr later ↦ elim (In-insert_by a l later) [
      | inl same ↦ rw same (before_asym v b a e)
      | inr old ↦ led x (tail old)
    ]
  ]

  IsLed-new :
      (a b : NodeState) (l : List NodeState)
      → before v b a ≡ false
      → IsLed (b ∷ l)
      → IsLed (a ∷ b ∷ l)
  IsLed-new a b l e led x m = elim (In-cons m) [
    | inl same ↦ rw same (before_irrefl v a)
    | inr later ↦ before_negtrans v x b a (led x later) e
  ]

  insert_by-IsLed :
      (a : NodeState) (l : List NodeState) → IsLed l → IsLed (insert_by (before v) a l)
  unfolding insert_by
  insert_by-IsLed a [] led = λ x m. elim (In-cons m) [
    | inl same ↦ rw same (before_irrefl v a)
    | inr later ↦ elim later [ ]
  ]
  insert_by-IsLed a (b ∷ l) led = elim (Bool-cases (before v b a)) [
    | inl e ↦ rw e (IsLed-keep a b l e led)
    | inr e ↦ rw e (IsLed-new a b l e led)
  ]

  sort_by-IsLed : (l : List NodeState) → IsLed (sort_by (before v) l)
  unfolding sort_by
  sort_by-IsLed [] = tt
  sort_by-IsLed (a ∷ l) = insert_by-IsLed a (sort_by (before v) l) (sort_by-IsLed l)

  sort_by-In : {x : NodeState} (l : List NodeState) → In x (sort_by (before v) l) → In x l
  unfolding sort_by
  sort_by-In [] m = m
  sort_by-In {x} (a ∷ l) m = elim (In-insert_by a (sort_by (before v) l) m) [
    | inl same ↦ subst (λ y. In y (a ∷ l)) (sym same) head
    | inr later ↦ tail (sort_by-In l later)
  ]

  insert_by_self : (a : NodeState) (l : List NodeState) → In a (insert_by (before v) a l)
  unfolding insert_by
  insert_by_self a [] = head
  insert_by_self a (b ∷ l) = elim (Bool-cases (before v b a)) [
    | inl e ↦ rw e (tail (insert_by_self a l))
    | inr e ↦ rw e head
  ]

  insert_by_old :
      {x : NodeState} (a : NodeState) (l : List NodeState)
      → In x l
      → In x (insert_by (before v) a l)
  unfolding insert_by
  insert_by_old a [] m = elim m [ ]
  insert_by_old a (b ∷ l) m = elim (Bool-cases (before v b a)) [
    | inl e ↦ rw e (elim (In-cons m) [
      | inl same ↦ subst (λ y. In y (b ∷ insert_by (before v) a l)) (sym same) head
      | inr later ↦ tail (insert_by_old a l later)
    ])
    | inr e ↦ rw e (tail m)
  ]

  In-sort_by : {x : NodeState} (l : List NodeState) → In x l → In x (sort_by (before v) l)
  unfolding sort_by
  In-sort_by [] m = m
  In-sort_by (a ∷ l) m = elim (In-cons m) [
    | inl same ↦
        subst (λ y. In y (insert_by (before v) a (sort_by (before v) l))) (sym same)
          (insert_by_self a (sort_by (before v) l))
    | inr later ↦ insert_by_old a (sort_by (before v) l) (In-sort_by l later)
  ]

  -- The head of a sorted list of eligible nodes.
  first-sort_by :
      (l : List NodeState) (s : List NodeState) {c : NodeState}
      → sort_by (before v) l ≡ s
      → first_of s ≡ ok c
      → In c l × ((x : NodeState) → In x l → before v x c ≡ false)
  first-sort_by l [] e h = cc
  first-sort_by l (m ∷ s) {c} e h =
      let same : m ≡ c = cc in
      subst (λ y. In y l × ((x : NodeState) → In x l → before v x y ≡ false)) same
        (
          sort_by-In l (subst (λ s'. In m s') (sym e) head),
          λ x i. subst IsLed e (sort_by-IsLed l) x (subst (λ s'. In x s') e (In-sort_by l i)),
        )

-- A candidate that is chosen stands in the view and is eligible, and no eligible node of the view
-- precedes it in the order by score, priority, version series and id.
pub select_default_best :
    (view : ClusterView) {c : NodeState}
    → select_default view ≡ ok c
    → In c view.nodes
      × (is_eligible c ≡ true)
      × ((x : NodeState) → In x view.nodes → is_eligible x ≡ true → before view x c ≡ false)
unfolding select_default
select_default_best view h =
    let (inside, least) =
      first-sort_by view (keep is_eligible view.nodes)
        (sort_by (before view) (keep is_eligible view.nodes)) refl h in
    let (m, e) = In-keep is_eligible view.nodes inside in
    (m, e, λ x i eligible. least x (keep-In is_eligible view.nodes i eligible))
