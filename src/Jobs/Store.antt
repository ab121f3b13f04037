-- ===== src/Jobs/Store.antt =====
-- api/jobs/store.py: the in-memory job store, the idempotency registry and the event logs. Each
-- method runs whole under the store's lock, so it is one function on the state; a method that
-- raises does so before it writes, so an `err` carries no new state.
pub mod Invariant
pub mod Use
pub mod Idempotency
use cosmos3_nano_web_ui.Common.{
  ℕ, zero, suc, ◌+◌, String, Bool, true, false, Option, none, some, List, [], ◌∷◌, ◌++◌, Result, ok,
  err, ◌>>=◌, ltb, length, tail, str_eq, if◌then◌else◌,
}
use cosmos3_nano_web_ui.Common.Float
use cosmos3_nano_web_ui.Common.Value.{Fields, end}
use cosmos3_nano_web_ui.Common.Dict
use cosmos3_nano_web_ui.Common.Dict.{Dict}
use cosmos3_nano_web_ui.Orchestrator.Planes.{Plane}
use cosmos3_nano_web_ui.Jobs.Events.{JobEvent}
use cosmos3_nano_web_ui.Jobs.Model.{
  JobStatus, queued, JobRecord, JobError, not_found, conflict, key_error, status_value,
}

pub record JobStore : Type 0 where
  pub jobs : Dict JobRecord
  pub events : Dict (List JobEvent)
  pub seq : Dict ℕ
  pub idem : Dict String

unfoldable pub init : JobStore
init = record { jobs = []; events = []; seq = []; idem = [] }

-- `_EVENT_LOG_BOUND`.
abbrev pub event_log_bound : ℕ
event_log_bound = 1024

abbrev pub or_else {ℓ} : {A : Type ℓ} → Option A → A → A
or_else none d = d
or_else (some a) d = a

-- `deque(maxlen=bound).append(event)`: a full deque drops its oldest event.
unfoldable pub push : List JobEvent → JobEvent → List JobEvent
push log event =
    let longer = log ++ event ∷ [] in
    if ltb event_log_bound (length longer) then tail longer else longer

-- `_append_event_locked`.
unfoldable pub append_event : String → String → Fields → JobStore → JobEvent × JobStore
unfolding push
append_event job_id event_type payload s =
    let seq = or_else (Dict.get s.seq job_id) 0 + 1 in
    let event : JobEvent = record { id = seq; type = event_type; payload = payload } in
    (
      event,
      record s {
        seq = Dict.put s.seq job_id seq;
        events = Dict.put s.events job_id (push (or_else (Dict.get s.events job_id) []) event);
      },
    )

-- `if key is not None: self._idem[key] = job_id`.
abbrev pub register : Option String → String → Dict String → Dict String
register none job_id idem = idem
register (some key) job_id idem = Dict.put idem key job_id

-- `fp if key is not None else None`.
abbrev pub keyed_fingerprint : Option String → String → Option String
keyed_fingerprint none fp = none
keyed_fingerprint (some key) fp = some fp

-- The record that `submit` makes. `job_id` and `now` are what the injected `id_factory` and `clock`
-- return.
abbrev pub new_job : String → String → String → String → Plane → Fields → Option String → JobRecord
new_job fp job_id now mode plane params key = record {
  id = job_id;
  mode = mode;
  plane = plane;
  status = queued;
  created_at = now;
  params = params;
  progress = Float.zero;
  artifact_path = none;
  error = none;
  idempotency_fingerprint = keyed_fingerprint key fp;
  result_meta = none;
}

-- The writes of `submit` before the event.
unfoldable pub stored : JobRecord → Option String → JobStore → JobStore
stored job key s = record s {
  jobs = Dict.put s.jobs job.id job;
  events = Dict.put s.events job.id [];
  seq = Dict.put s.seq job.id 0;
  idem = register key job.id s.idem;
}

-- A payload that is not replayed: the new job, then its `queued` event.
unfoldable pub create : JobRecord → Option String → JobStore → JobStore
create job key s = (append_event job.id (status_value queued) end (stored job key s)).1

-- `existing.idempotency_fingerprint == fp`.
abbrev pub same_fingerprint : Option String → String → Bool
same_fingerprint none fp = false
same_fingerprint (some a) fp = str_eq a fp

-- A key that is registered for the job `owner`: replay it, or raise.
unfoldable pub replay :
    String → String → String → JobStore → Result JobError (JobRecord × Bool × JobStore)
replay fp key owner s = elim (Dict.get s.jobs owner) [
  | none ↦ err (key_error owner)
  | some existing ↦
      if same_fingerprint existing.idempotency_fingerprint fp
      then ok (existing, true, s)
      else err (conflict key)
]

-- The job that a key is registered for: `key is not None and key in self._idem`.
abbrev pub owner_of : Option String → JobStore → Option (String × String)
owner_of none s = none
owner_of (some key) s = elim (Dict.get s.idem key) [ none ↦ none | some j ↦ some (key, j) ]

-- `submit`, with the payload's fingerprint, the fresh id and the time given.
unfoldable pub submit :
    String
    → String
    → String
    → String
    → Plane
    → Fields
    → Option String
    → JobStore
    → Result JobError (JobRecord × Bool × JobStore)
unfolding create replay
submit fp job_id now mode plane params key s = elim (owner_of key s) [
  | some (k, owner) ↦ replay fp k owner s
  | none ↦
      let job = new_job fp job_id now mode plane params key in ok (job, false, create job key s)
]

-- `try_get`.
abbrev pub try_get : String → JobStore → Option JobRecord
try_get job_id s = Dict.get s.jobs job_id

-- `get`.
unfoldable pub get : String → JobStore → Result JobError JobRecord
get job_id s = elim (try_get job_id s) [ none ↦ err (not_found job_id) | some r ↦ ok r ]

-- `put`.
unfoldable pub put : JobRecord → JobStore → JobStore
put job s = record s { jobs = Dict.put s.jobs job.id job }

-- `update`: an exception of `fn` leaves the store as it was.
unfoldable pub update :
    String
    → (JobRecord → Result JobError JobRecord)
    → JobStore
    → Result JobError (JobRecord × JobStore)
update job_id fn s = elim (try_get job_id s) [
  | none ↦ err (not_found job_id)
  | some job ↦
      fn job >>= λ updated. ok (updated, record s { jobs = Dict.put s.jobs job_id updated })
]

-- `log`.
unfoldable pub log : String → JobStore → Result JobError (List JobEvent)
log job_id s = elim (try_get job_id s) [
  | none ↦ err (not_found job_id)
  | some r ↦ ok (or_else (Dict.get s.events job_id) [])
]
