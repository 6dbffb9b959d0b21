-- ===== src/State/Leases/Handles.antt =====
-- The handles of `LocalLeaseManager` in internal/state/memory.go that are not yet released, in
-- whatever order its callers take and release them.
use mha_go.Base.{
  Bool, true, false, not, ◌&&◌, Text, text_eq, text_eq_refl, text_eq_sound, text_eq_iff, List, [],
  ◌∷◌, none, some, ok, keep, In, In-keep, keep-In, In-cons, ◌≡◌, ◌↔◌, refl, sym, ap, ◌∙◌, subst,
  inl, inr, ◌⊎◌, Bool-cases, Option-cases, arith,
}
use mha_go.Base.Errors.{ok-injective}
use mha_go.Base.Lists.{head, tail}
use mha_go.State.Assoc.{lookup, remove, lookup-remove, lookup-remove_other}
use mha_go.State.Leases.{Leases, acquire, release, is_taken, acquire_exclusive}

-- A key with the owner it was handed to.
abbrev pub Handle : Type 0
Handle = Text × Text

abbrev pub is_other : Text → Text → Handle → Bool
is_other key owner h = not (text_eq h.0 key && text_eq h.1 owner)

-- The manager's map, and the handles that are not yet released.
pub record Manager : Type 0 where
  pub leases : Leases
  pub handles : List Handle

-- Somebody takes a key for an owner who has no handle of it, or releases a handle.
pub data Use (m : Manager) : Manager → Type 0 where
  takes :
      (key owner : Text) {l : Leases}
      → ¬ In (key, owner) m.handles
      → acquire key owner m.leases ≡ ok l
      → Use m record { leases = l; handles = (key, owner) ∷ m.handles }
  gives_back :
      (key owner : Text)
      → In (key, owner) m.handles
      → Use m
          record { leases = release key m.leases; handles = keep (is_other key owner) m.handles }

-- From `NewLocalLeaseManager` on.
pub data Used : Manager → Type 0 where
  unused : Used record { leases = []; handles = [] }
  used : {m m' : Manager} → Used m → Use m m' → Used m'

-- The map has exactly the handles.
record IsTrue (m : Manager) : Type 0 where
  stored : (k o : Text) → In (k, o) m.handles → lookup k m.leases ≡ some o
  handed : (k o : Text) → lookup k m.leases ≡ some o → In (k, o) m.handles

some_injective : {a b : Text} → some a ≡ some b → a ≡ b
some_injective e = ground arith

-- What a lease that is taken leaves behind.
acquired :
    (key owner : Text) (m : Leases) {l : Leases}
    → acquire key owner m ≡ ok l
    → (is_taken owner (lookup key m) ≡ false)
      × (lookup key l ≡ some owner)
      × ((other : Text) → text_eq key other ≡ false → lookup other l ≡ lookup other m)
acquired key owner m h = elim (acquire_exclusive key owner m) [
  | inl (l', e, free, own, others) ↦
      let same = ok-injective (sym e ∙ h) in
      (
        free,
        ap (lookup key) (sym same) ∙ own,
        λ other d. ap (lookup other) (sym same) ∙ others other d,
      )
  | inr (o, e, current, other) ↦ cc (h, e)
]

same_key : (key k : Text) → (key ≡ k) ⊎ (text_eq key k ≡ false)
same_key key k = elim (Bool-cases (text_eq key k)) [
  | inl e ↦ inl (text_eq_sound key k e)
  | inr e ↦ inr e
]

-- Whoever takes a key without a handle of it finds it free.
free_of :
    (m : Manager) (key owner : Text) {l : Leases}
    → IsTrue m
    → ¬ In (key, owner) m.handles
    → acquire key owner m.leases ≡ ok l
    → lookup key m.leases ≡ none
free_of m key owner v guard h = elim (Option-cases (lookup key m.leases)) [
  | inl e ↦ e
  | inr (o, e) ↦
      let mine : text_eq o owner ≡ true =
        ground (arith, ap (is_taken owner) e, (acquired key owner m.leases h).0) in
      absurd
        (guard (subst (λ x. In (key, x) m.handles) (text_eq_sound o owner mine) (v.handed key o e)))
]

takes-IsTrue :
    (m : Manager) (key owner : Text) {l : Leases}
    → IsTrue m
    → ¬ In (key, owner) m.handles
    → acquire key owner m.leases ≡ ok l
    → IsTrue record { leases = l; handles = (key, owner) ∷ m.handles }
takes-IsTrue m key owner {l} v guard h =
    let (_, own, others) = acquired key owner m.leases h in
    let free = free_of m key owner v guard h in
    record {
      stored = λ k o i. elim (In-cons i) [
        | inl same ↦ subst (λ (x : Handle). lookup x.0 l ≡ some x.1) (sym same) own
        | inr later ↦ elim (same_key key k) [
          | inl e ↦ cc (sym free ∙ (ap (λ x. lookup x m.leases) e ∙ v.stored k o later))
          | inr d ↦ others k d ∙ v.stored k o later
        ]
      ];
      handed = λ k o e. elim (same_key key k) [
        | inl same ↦
            let one : owner ≡ o = some_injective (sym own ∙ (ap (λ x. lookup x l) same ∙ e)) in
            subst (λ x. In (x, o) ((key, owner) ∷ m.handles)) same
              (subst (λ x. In (key, x) ((key, owner) ∷ m.handles)) one head)
        | inr d ↦ tail (v.handed k o (sym (others k d) ∙ e))
      ];
    }

gives_back-IsTrue :
    (m : Manager) (key owner : Text)
    → IsTrue m
    → In (key, owner) m.handles
    → IsTrue record { leases = release key m.leases; handles = keep (is_other key owner) m.handles }
unfolding release
gives_back-IsTrue m key owner v held = record {
  stored = λ k o i.
      let (old, other) = In-keep (is_other key owner) m.handles i in
      elim (same_key key k) [
        | inl same ↦
            let one : owner ≡ o = some_injective (
              sym (v.stored key owner held)
              ∙ (ap (λ x. lookup x m.leases) same ∙ v.stored k o old)) in
            let self : is_other key owner (k, o) ≡ false =
              subst (λ x. is_other key owner (x, o) ≡ false) same
                (subst (λ x. is_other key owner (key, x) ≡ false) one
                  (rw (text_eq_refl key) (rw (text_eq_refl owner) refl))) in
            cc (sym self ∙ other)
        | inr d ↦ lookup-remove_other k key m.leases d ∙ v.stored k o old
      ];
  handed = λ k o e. elim (same_key key k) [
    | inl same ↦
        cc (sym (lookup-remove key m.leases) ∙ (ap (λ x. lookup x (remove key m.leases)) same ∙ e))
    | inr d ↦
        keep-In (is_other key owner) m.handles
          (v.handed k o (sym (lookup-remove_other k key m.leases d) ∙ e))
          (ground (arith, text_eq_iff k key, text_eq_iff key k))
  ];
}

lookup-nil : (k : Text) → lookup {V = Text} k [] ≡ none
unfolding lookup
lookup-nil k = refl

Used-IsTrue : {m : Manager} → Used m → IsTrue m
Used-IsTrue unused = record {
  stored = λ k o i. elim i [ ];
  handed = λ k o e. cc (sym (lookup-nil k) ∙ e);
}
Used-IsTrue (used {m} u (takes key owner guard h)) =
    takes-IsTrue m key owner (Used-IsTrue u) guard h
Used-IsTrue (used {m} u (gives_back key owner i)) = gives_back-IsTrue m key owner (Used-IsTrue u) i

-- In whatever order owners take keys and release the handles they have, where nobody takes a key
-- again before its handle is released, all handles of a key that are not yet released have one owner, and
-- an owner without a handle of a key gets the key exactly if there is no handle of it.
pub Used-IsExclusive :
    {m : Manager}
    → Used m
    → ((key a b : Text) → In (key, a) m.handles → In (key, b) m.handles → a ≡ b)
      × ((key owner : Text)
          → ¬ In (key, owner) m.handles
          → ((l : Leases) × (acquire key owner m.leases ≡ ok l))
            ↔ (¬ ((o : Text) × In (key, o) m.handles)))
Used-IsExclusive {m} u =
    let v = Used-IsTrue u in
    (
      λ key a b i j. some_injective (sym (v.stored key a i) ∙ v.stored key b j),
      λ key owner guard. (
        λ (l, h) (o, i). cc (sym (free_of m key owner v guard h) ∙ v.stored key o i),
        λ none_held. elim (acquire_exclusive key owner m.leases) [
          | inl (l, e, free, own, others) ↦ (l, e)
          | inr (o, e, held, r) ↦ absurd (none_held (o, v.handed key o held))
        ],
      ),
    )
