-- ===== src/State/Tests.antt =====
-- Runs of internal/state/memory.go.
use mha_go.Base.{
  In, ◌↔◌, ◌+◌, false, Text, codes, text_eq, [], ◌∷◌, ◌++◌, length, some, ok, err, ◌⊎◌, ◌≡◌, refl,
}
use mha_go.Domain.View.{EventSeverity}
use mha_go.Domain.Run.{RunRecord, RunEvent, RunKind, RunStatus}
use mha_go.State.Assoc.{lookup, put}
use mha_go.State.Leases.{Leases, acquire, is_taken, held_text, acquire_exclusive}
use mha_go.State.Leases.Handles.{Manager, Used, used, unused, takes, Used-IsExclusive}
use mha_go.State.Store.{
  Store, create_run, with_event, append_event, get_run, run_not_found, time_or,
}
use mha_go.State.Store.Numbered.{
  IsNumbered, stays, then_step, creates, appends, empty_store, get_run-IsNumbered, append_event_lem,
}

abbrev held : Leases
held = (codes "failover/app", codes "ctl1") ∷ []

acquire_exclusive_example :
    ((l : Leases) × (acquire (codes "failover/app") (codes "ctl2") held ≡ ok l)
      × (is_taken (codes "ctl2") (lookup (codes "failover/app") held) ≡ false)
      × (lookup (codes "failover/app") l ≡ some (codes "ctl2"))
      × ((other : Text)
          → text_eq (codes "failover/app") other ≡ false
          → lookup other l ≡ lookup other held))
    ⊎ ((current : Text) × (acquire (codes "failover/app") (codes "ctl2") held
          ≡ err (held_text (codes "failover/app") current))
        × (lookup (codes "failover/app") held ≡ some current)
        × (text_eq current (codes "ctl2") ≡ false))
acquire_exclusive_example = acquire_exclusive (codes "failover/app") (codes "ctl2") held

-- Behind the first lease that is taken.
abbrev first_taken : Manager
first_taken = record { leases = held; handles = (codes "failover/app", codes "ctl1") ∷ [] }

taken : Used first_taken
unfolding acquire lookup put
taken = used unused (takes (codes "failover/app") (codes "ctl1") (λ i. elim i [ ]) refl)

Used-IsExclusive_example :
    ((key a b : Text) → In (key, a) first_taken.handles → In (key, b) first_taken.handles → a ≡ b)
    × ((key owner : Text)
        → ¬ In (key, owner) first_taken.handles
        → ((l : Leases) × (acquire key owner first_taken.leases ≡ ok l))
          ↔ (¬ ((o : Text) × In (key, o) first_taken.handles)))
Used-IsExclusive_example = Used-IsExclusive taken

abbrev new_run : RunRecord
new_run = record {
  id = codes "r1";
  cluster = codes "app";
  kind = RunKind.failover;
  status = RunStatus.unset;
  started_at = 0;
  updated_at = 0;
  summary = [];
  events = [];
}

abbrev new_event : RunEvent
new_event = record {
  sequence = 0;
  at = 0;
  phase = codes "lease";
  severity = EventSeverity.info;
  message = [];
  metadata = [];
}

abbrev stored_event : RunEvent
stored_event = record new_event { sequence = 1; at = 9 }

abbrev stored_run : RunRecord
stored_run = record new_run {
  status = RunStatus.running;
  started_at = 7;
  updated_at = 9;
  events = stored_event ∷ [];
}

abbrev stored : Store
stored = record { counter = 0; runs = (codes "r1", stored_run) ∷ [] }

appended : append_event 9 (codes "r1") new_event (create_run 7 new_run empty_store).1 ≡ ok stored
unfolding append_event create_run put lookup text_eq with_event
appended = refl

got : get_run (codes "r1") stored ≡ ok stored_run
unfolding get_run lookup text_eq
got = refl

get_run-IsNumbered_example : IsNumbered 1 stored_run.events
get_run-IsNumbered_example =
    get_run-IsNumbered (codes "r1")
      (then_step (then_step stays (creates 7 new_run refl))
        (appends 9 (codes "r1") new_event refl appended))
      got

append_event_lem_example :
    ((get_run (codes "r1") stored ≡ err run_not_found)
      × (append_event 12 (codes "r1") new_event stored ≡ err run_not_found))
    ⊎ ((r : RunRecord) × (s' : Store) × (get_run (codes "r1") stored ≡ ok r)
        × (append_event 12 (codes "r1") new_event stored ≡ ok s')
        × (get_run (codes "r1") s'
            ≡ ok (record r {
              events =
                  r.events
                  ++ (record new_event {
                    sequence = length r.events + 1;
                    at = time_or 12 new_event.at;
                  }
                      ∷ []);
              updated_at = time_or 12 new_event.at;
            }))
        × ((other : Text)
            → text_eq (codes "r1") other ≡ false
            → get_run other s' ≡ get_run other stored))
append_event_lem_example = append_event_lem 12 (codes "r1") new_event stored refl
