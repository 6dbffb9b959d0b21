-- ===== src/State/Store/Numbered.antt =====
-- What the runs of `MemoryStore` in internal/state/memory.go look like at all times.
use mha_go.Base.{
  ℕ, ◌+◌, false, Text, text_eq, List, [], ◌∷◌, ◌++◌, length, All, ok, err, Option-cases, inl, inr,
  ◌≡◌, refl, sym, ap, subst, ◌∙◌, arith, is_nil, Bool-cases, some, ◌⊎◌,
}
use mha_go.Base.Errors.{ok-injective}
use mha_go.Domain.Run.{RunRecord, RunEvent, RunStatus}
use mha_go.State.Assoc.{lookup, put, lookup-put, lookup-put_other, All-put, All-lookup}
use mha_go.State.Store.{
  Store, run_not_found, create_run, created, found, time_or, append_event, update_run, get_run,
  stamped, with_event, with_status, change, run_name,
}

-- Events numbered one by one from `k`.
abbrev pub IsNumbered : ℕ → List RunEvent → Type 0
IsNumbered k [] = Unit
IsNumbered k (e ∷ l) = (e.sequence ≡ k) × IsNumbered (k + 1) l

-- The store as the callers use it: runs are created without events, and events are appended
-- without a number.
pub data Step (s : Store) : Store → Type 0 where
  creates : (now : ℕ) (r : RunRecord) → r.events ≡ [] → Step s (create_run now r s).1
  appends :
      (now : ℕ) (id : Text) (e : RunEvent) {s' : Store}
      → e.sequence ≡ 0
      → append_event now id e s ≡ ok s'
      → Step s s'
  updates :
      (now : ℕ) (id : Text) (status : RunStatus) (summary : Text) {s' : Store}
      → update_run now id status summary s ≡ ok s'
      → Step s s'

pub data Steps : Store → Store → Type 0 where
  stays : {s : Store} → Steps s s
  then_step : {s t u : Store} → Steps s t → Step t u → Steps s u

IsNumbered-append :
    (k : ℕ) (l : List RunEvent) (e : RunEvent)
    → IsNumbered k l
    → e.sequence ≡ k + length l
    → IsNumbered k (l ++ (e ∷ []))
IsNumbered-append k [] e h n = (n ∙ omega arith, tt)
IsNumbered-append k (f ∷ l) e h n = (h.0, IsNumbered-append (k + 1) l e h.1 (n ∙ omega arith))

abbrev Numbered : RunRecord → Type 0
Numbered r = IsNumbered 1 r.events

abbrev AllNumbered : Store → Type 0
AllNumbered s = All (λ (e : Text × RunRecord). Numbered e.1) s.runs

change-eq-ok :
    (id : Text) (f : RunRecord → RunRecord) (s : Store) {s' : Store}
    → change id f s (lookup id s.runs) ≡ ok s'
    → (r : RunRecord) × (lookup id s.runs ≡ some r) × (s' ≡ record s { runs = put id (f r) s.runs })
change-eq-ok id f s h = elim (Option-cases (lookup id s.runs)) [
  | inl e ↦ cc (h, ap (change id f s) e)
  | inr (r, e) ↦ (r, e, sym (ok-injective (sym (ap (change id f s) e) ∙ h)))
]

change-AllNumbered :
    (id : Text) (f : RunRecord → RunRecord) (s : Store) {s' : Store}
    → change id f s (lookup id s.runs) ≡ ok s'
    → ((r : RunRecord) → Numbered r → Numbered (f r))
    → AllNumbered s
    → AllNumbered s'
change-AllNumbered id f s h keeps v =
    let (r, e, same) = change-eq-ok id f s h in
    subst AllNumbered (sym same)
      (All-put Numbered id (f r) s.runs (keeps r (All-lookup Numbered id s.runs v e)) v)

with_event-Numbered :
    (now : ℕ) (e : RunEvent) (r : RunRecord)
    → e.sequence ≡ 0
    → Numbered r
    → Numbered (with_event now e r)
unfolding with_event
with_event-Numbered now e r n v =
    IsNumbered-append 1 r.events (stamped now r e) v (unfold stamped in ground arith)

create_run-AllNumbered :
    (now : ℕ) (r : RunRecord) (s : Store)
    → r.events ≡ []
    → AllNumbered s
    → AllNumbered (create_run now r s).1
unfolding create_run
create_run-AllNumbered now r s e v = elim (Bool-cases (is_nil r.id)) [
  | inl t ↦ rw t (
      All-put Numbered _ (created (run_name (s.counter + 1)) now r) s.runs
        (unfold created in subst (IsNumbered 1) (sym e) tt) v)
  | inr t ↦ rw t (
      All-put Numbered _ (created r.id now r) s.runs
        (unfold created in subst (IsNumbered 1) (sym e) tt) v)
]

Step-AllNumbered : {s s' : Store} → Step s s' → AllNumbered s → AllNumbered s'
Step-AllNumbered {s} (creates now r e) v = create_run-AllNumbered now r s e v
Step-AllNumbered {s} {s'} (appends now id e n h) v =
    change-AllNumbered id (with_event now e) s {s' = s'} (unfold append_event in h)
      (λ r w. with_event-Numbered now e r n w) v
Step-AllNumbered {s} {s'} (updates now id status summary h) v =
    change-AllNumbered id (with_status now status summary) s {s' = s'} (unfold update_run in h)
      (λ r w. unfold with_status in w) v

Steps-AllNumbered : {s s' : Store} → Steps s s' → AllNumbered s → AllNumbered s'
Steps-AllNumbered stays v = v
Steps-AllNumbered (then_step more step) v = Step-AllNumbered step (Steps-AllNumbered more v)

-- The store of `NewMemoryStore`.
abbrev pub empty_store : Store
empty_store = record { counter = 0; runs = [] }

-- In whatever order runs are created, appended to and updated from the empty store on, where each
-- run is created without events and each event appended without a number, the events of each run
-- that can be got are numbered one by one from 1.
pub get_run-IsNumbered :
    {s : Store} (id : Text) {r : RunRecord}
    → Steps empty_store s
    → get_run id s ≡ ok r
    → IsNumbered 1 r.events
unfolding get_run
get_run-IsNumbered {s} id {r} steps h = elim (Option-cases (lookup id s.runs)) [
  | inl e ↦ cc (h, ap found e)
  | inr (q, e) ↦
      subst Numbered (ok-injective (sym (ap found e) ∙ h))
        (All-lookup Numbered id s.runs (Steps-AllNumbered steps tt) e)
]

-- An appended event that has no number becomes the last of the run's events, numbered behind the
-- others; the run's other fields stay as they were but for the time of its change, and so do all
-- other runs. Appending to a run that is not there fails.
pub append_event_lem :
    (now : ℕ) (id : Text) (e : RunEvent) (s : Store)
    → e.sequence ≡ 0
    → ((get_run id s ≡ err run_not_found) × (append_event now id e s ≡ err run_not_found))
      ⊎ ((r : RunRecord) × (s' : Store) × (get_run id s ≡ ok r)
          × (append_event now id e s ≡ ok s')
          × (get_run id s'
              ≡ ok (record r {
                events =
                    r.events
                    ++ (record e { sequence = length r.events + 1; at = time_or now e.at } ∷ []);
                updated_at = time_or now e.at;
              }))
          × ((other : Text) → text_eq id other ≡ false → get_run other s' ≡ get_run other s))
unfolding append_event get_run
append_event_lem now id e s n = elim (Option-cases (lookup id s.runs)) [
  | inl e' ↦ inl (ap found e', ap (change id (with_event now e) s) e')
  | inr (r, e') ↦ inr (
    r,
    record s { runs = put id (with_event now e r) s.runs },
    ap found e',
    ap (change id (with_event now e) s) e',
    ap found (lookup-put id (with_event now e r) s.runs) ∙ (unfold with_event stamped in rw n refl),
    λ other d. ap found (lookup-put_other other id (with_event now e r) s.runs d),
  )
]
