-- ===== src/State/Leases.antt =====
-- `LocalLeaseManager` of internal/state/memory.go.
pub mod Handles
use mha_go.Base.{
  Bool, false, not, Text, codes, text_eq, List, ◌++◌, Option, none, some, if◌then◌else◌, ◌≡◌, refl,
  Result, ok, err, Option-cases, Bool-cases, inl, inr, ◌⊎◌,
}
use mha_go.State.Assoc.{lookup, put, remove, lookup-put, lookup-put_other}

-- The owner of each key that is held.
abbrev pub Leases : Type 0
Leases = List (Text × Text)

unfoldable pub held_text : Text → Text → Text
held_text key owner =
    codes "lease \"" ++ (key ++ (codes "\" is already held by \"" ++ (owner ++ codes "\"")))

unfoldable pub acquire_behind : Text → Text → Leases → Option Text → Result Text Leases
acquire_behind key owner m none = ok (put key owner m)
acquire_behind key owner m (some current) =
    if not (text_eq current owner) then err (held_text key current) else ok (put key owner m)

-- `Acquire`; the handle it returns is the key with the owner.
unfoldable pub acquire : Text → Text → Leases → Result Text Leases
unfolding acquire_behind
acquire key owner m = acquire_behind key owner m (lookup key m)

-- `Release` of a handle with this key.
unfoldable pub release : Text → Leases → Leases
release key m = remove key m

-- Whether somebody else holds the key.
abbrev pub is_taken : Text → Option Text → Bool
is_taken owner none = false
is_taken owner (some current) = not (text_eq current owner)

-- Taking a lease fails exactly if somebody else holds the key. If it is taken, the owner holds
-- the key, and whoever held another key still holds it.
pub acquire_exclusive :
    (key owner : Text) (m : Leases)
    → ((l : Leases) × (acquire key owner m ≡ ok l)
        × (is_taken owner (lookup key m) ≡ false)
        × (lookup key l ≡ some owner)
        × ((other : Text) → text_eq key other ≡ false → lookup other l ≡ lookup other m))
      ⊎ ((current : Text) × (acquire key owner m ≡ err (held_text key current))
          × (lookup key m ≡ some current)
          × (text_eq current owner ≡ false))
unfolding acquire
acquire_exclusive key owner m = elim (Option-cases (lookup key m)) [
  | inl e ↦ inl (
    put key owner m,
    rw e refl,
    rw e refl,
    lookup-put key owner m,
    λ other d. lookup-put_other other key owner m d,
  )
  | inr (current, e) ↦ elim (Bool-cases (text_eq current owner)) [
    | inl t ↦ inl (
      put key owner m,
      rw e (rw t refl),
      rw e (rw t refl),
      lookup-put key owner m,
      λ other d. lookup-put_other other key owner m d,
    )
    | inr t ↦ inr (current, rw e (rw t refl), e, t)
  ]
]
