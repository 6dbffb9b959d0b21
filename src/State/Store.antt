-- ===== src/State/Store.antt =====
-- `MemoryStore` of internal/state/memory.go. `now` is what the clock says, and 0 the zero time.
pub mod Numbered
use mha_go.Base.{
  ℕ, zero, suc, ◌+◌, Bool, true, false, not, ◌&&◌, ◌||◌, ltb, ◌==◌, Text, codes, text_eq, List, [],
  ◌∷◌, ◌++◌, length, is_nil, keep, map, take, Option, none, some, if◌then◌else◌, Result, ok, err,
  print_uint, ◌-◌,
}
use mha_go.Domain.Run.{RunRecord, RunEvent, RunStatus}
use mha_go.State.Assoc.{lookup, put}

pub data StoreError : Type 0 where
  run_not_found : StoreError

abbrev pub Runs : Type 0
Runs = List (Text × RunRecord)

pub record Store : Type 0 where
  pub counter : ℕ
  pub runs : Runs

unfoldable pub zeros : ℕ → Text
zeros zero = []
zeros (suc n) = 48 ∷ zeros n

-- `fmt.Sprintf("run-%06d", n)`
unfoldable pub run_name : ℕ → Text
run_name n = let d = print_uint n in codes "run-" ++ (zeros (6 - length d) ++ d)

abbrev pub status_or_running : RunStatus → RunStatus
status_or_running RunStatus.unset = RunStatus.running
status_or_running RunStatus.pending = RunStatus.pending
status_or_running RunStatus.running = RunStatus.running
status_or_running RunStatus.succeeded = RunStatus.succeeded
status_or_running RunStatus.failed = RunStatus.failed
status_or_running RunStatus.aborted = RunStatus.aborted

-- A time, or the clock's where it is the zero time.
abbrev pub time_or : ℕ → ℕ → ℕ
time_or now t = if t == 0 then now else t

-- The record that `CreateRun` stores under the id.
unfoldable pub created : Text → ℕ → RunRecord → RunRecord
created id now r = record r {
  id = id;
  started_at = time_or now r.started_at;
  updated_at = time_or now r.started_at;
  status = status_or_running r.status;
}

abbrev pub store_as : Text → ℕ → RunRecord → ℕ → Runs → RunRecord × Store
store_as id now r counter runs =
    (created id now r, record { counter = counter; runs = put id (created id now r) runs })

-- `CreateRun`: the record and the new store.
unfoldable pub create_run : ℕ → RunRecord → Store → RunRecord × Store
unfolding created
create_run now r s =
    if is_nil r.id
    then store_as (run_name (s.counter + 1)) now r (s.counter + 1) s.runs
    else store_as r.id now r s.counter s.runs

-- The event with its number and its time.
unfoldable pub stamped : ℕ → RunRecord → RunEvent → RunEvent
stamped now r e = record e {
  sequence = if e.sequence == 0 then length r.events + 1 else e.sequence;
  at = time_or now e.at;
}

unfoldable pub with_event : ℕ → RunEvent → RunRecord → RunRecord
unfolding stamped
with_event now e r = record r {
  events = r.events ++ (stamped now r e ∷ []);
  updated_at = (stamped now r e).at;
}

unfoldable pub with_status : ℕ → RunStatus → Text → RunRecord → RunRecord
with_status now status summary r = record r { status = status; summary = summary; updated_at = now }

-- Replaces a run that was found.
abbrev pub change :
    Text → (RunRecord → RunRecord) → Store → Option RunRecord → Result StoreError Store
change id f s none = err run_not_found
change id f s (some r) = ok (record s { runs = put id (f r) s.runs })

-- `AppendEvent`
unfoldable pub append_event : ℕ → Text → RunEvent → Store → Result StoreError Store
append_event now id e s = change id (with_event now e) s (lookup id s.runs)

-- `UpdateRun`
unfoldable pub update_run : ℕ → Text → RunStatus → Text → Store → Result StoreError Store
update_run now id status summary s = change id (with_status now status summary) s (lookup id s.runs)

abbrev pub found : Option RunRecord → Result StoreError RunRecord
found none = err run_not_found
found (some r) = ok r

-- `GetRun`
unfoldable pub get_run : Text → Store → Result StoreError RunRecord
get_run id s = found (lookup id s.runs)

-- Newest first; the order of runs that started together is left open by the sort, and is that of
-- the map here.
unfoldable pub insert_run : RunRecord → List RunRecord → List RunRecord
insert_run r [] = r ∷ []
insert_run r (q ∷ l) = if ltb r.started_at q.started_at then q ∷ insert_run r l else r ∷ q ∷ l

unfoldable pub sort_runs : List RunRecord → List RunRecord
unfolding insert_run
sort_runs [] = []
sort_runs (r ∷ l) = insert_run r (sort_runs l)

-- `ListRuns`, for a limit that is not negative.
unfoldable pub list_runs : Text → ℕ → Store → List RunRecord
unfolding sort_runs
list_runs cluster limit s =
    let out = sort_runs (
      keep (λ r. is_nil cluster || text_eq r.cluster cluster)
        (map (λ (e : Text × RunRecord). e.1) s.runs)) in
    if ltb 0 limit && ltb limit (length out) then take limit out else out
