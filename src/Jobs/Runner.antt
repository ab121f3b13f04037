-- ===== src/Jobs/Runner.antt =====
-- api/jobs/runner.py: the drain loop, the work thread and the cancel coroutines, as the handlers that
-- run between two awaits. A `World` is what they share. `loop` says at which await the drain loop
-- stands; `evicting` lists the cancel coroutines that stand at `await self._orch.evict_all()`, in the
-- order in which they asked for the orchestrator's lock. The worker, the orchestrator's answer and
-- the work's result are arguments of the handlers.
pub mod Status
pub mod Steps
pub mod Serial
pub mod Durable
pub mod Fits
pub mod Keeps
pub mod Reachable
pub mod Calls
pub mod Cancels
pub mod Board
use cosmos3_nano_web_ui.Common.{
  Bool, true, false, Option, none, some, String, List, [], ◌∷◌, ◌++◌, Result, ok, err, ◌>>=◌,
  select, has, str_eq, not, if◌then◌else◌, ◌&&◌,
}
use cosmos3_nano_web_ui.Common.Float.{Float}
use cosmos3_nano_web_ui.Common.Value.{Fields, end, field, str, float}
use cosmos3_nano_web_ui.Orchestrator.Planes.{Plane}
use cosmos3_nano_web_ui.Jobs.Events.{progress_type}
use cosmos3_nano_web_ui.Jobs.Model.{
  JobStatus, running, succeeded, failed, cancelled, JobRecord, JobError, not_found, transition,
  ErrorModel, is_running, is_queued, is_terminal, status_value, start, progress, succeed, fail,
  cancel,
}
use cosmos3_nano_web_ui.Jobs.Store.{JobStore, append_event, update, submit, try_get}

-- `WorkResult`.
pub record WorkResult : Type 0 where
  pub artifact_path : String
  pub meta : Fields

-- An exception of the work or of the orchestrator: its `code` attribute, if that is a text, and its
-- message.
pub record Failure : Type 0 where
  pub code : Option String
  pub message : String

-- `_error_of`.
unfoldable pub error_of : Failure → ErrorModel
error_of e = record {
  code = elim e.code [ none ↦ "internal_error" | some code ↦ code ];
  message = e.message;
  details = none;
}

-- Where the drain loop stands: at `queue.get()`, at the lease, in `acquire`, in the work thread, or
-- in the `evict_all` after a failure.
pub data Loop : Type 0 where
  waiting : Loop
  leasing acquiring working releasing : String → Loop

pub record World : Type 0 where
  pub store : JobStore
  pub queue : List String
  pub cancelled_ids : List String
  pub current : Option String
  pub loop : Loop
  pub evicting : List String

-- `self._cancelled.discard(job_id)`.
abbrev pub discard : String → List String → List String
discard j ids = select (λ i. not (str_eq i j)) ids

-- An update, and the event after it; an update that raises appends none.
unfoldable pub update_event :
    String
    → (JobRecord → Result JobError JobRecord)
    → String
    → Fields
    → JobStore
    → Result JobError (JobRecord × JobStore)
update_event job_id fn type payload s =
    update job_id fn s >>= λ out. ok (out.0, (append_event job_id type payload (out.1)).1)

-- The `finally` of `_process`, after which the loop is back at `queue.get()`.
unfoldable pub finish : String → World → World
finish j w = record w { cancelled_ids = discard j w.cancelled_ids; current = none; loop = waiting }

-- The loop goes on from an update: to `next` if it returned, to the `finally` if it raised.
abbrev pub went_on :
    String → World → Result JobError (JobRecord × JobStore) → (World → World) → World
went_on j w (ok (job, s)) next = next (record w { store = s })
went_on j w (err e) next = finish j w

-- `_process` up to the lease, for the id that `queue.get()` returned.
unfoldable pub dequeued : String → World → World
dequeued j w =
    if has w.cancelled_ids j
    then record w { cancelled_ids = discard j w.cancelled_ids }
    else elim (try_get j w.store) [
      | none ↦ w
      | some r ↦ if is_queued r.status then record w { current = some j; loop = leasing j } else w
    ]

-- `acquire` has returned.
unfoldable pub acquired : String → World → World
unfolding finish
acquired j w =
    if has w.cancelled_ids j
    then finish j w
    else went_on j w (update_event j start (status_value running) end w.store)
        (λ w'. record w' { loop = working j })

-- `_fail`, and the await of `evict_all`.
unfoldable pub failed_with : String → Failure → World → World
unfolding finish error_of
failed_with j e w =
    if has w.cancelled_ids j
    then finish j w
    else went_on j w
        (update_event j (fail (error_of e)) (status_value failed)
          (field "message" (str e.message) end) w.store)
        (λ w'. record w' { loop = releasing j })

-- The record function of `_progress_cb`.
unfoldable pub report_fraction : Float → JobRecord → Result JobError JobRecord
report_fraction fraction r = if is_running r.status then progress fraction r else ok r

-- A call of the callback by the work thread; its own exceptions end in the work, not here.
unfoldable pub reported : String → Float → World → World
unfolding report_fraction
reported j fraction w = elim (update j (report_fraction fraction) w.store) [
  | err e ↦ w
  | ok (job, s) ↦
      if is_running job.status
      then record w {
        store = (append_event j progress_type (field "progress" (float job.progress) end) s).1;
      }
      else record w { store = s }
]

-- The work has returned.
unfoldable pub worked : String → WorkResult → World → World
unfolding finish
worked j result w =
    if has w.cancelled_ids j
    then finish j w
    else went_on j w
        (update_event j (succeed result.artifact_path (some result.meta)) (status_value succeeded)
          result.meta w.store)
        (finish j)

-- `cancel` from the check of the status on: `update(cancel)` and its event.
unfoldable pub mark_cancelled : String → World → Result JobError JobRecord × World
mark_cancelled j w = elim (update_event j cancel (status_value cancelled) end w.store) [
  | err e ↦ (err e, w)
  | ok (job, s) ↦ (ok job, record w { store = s })
]

abbrev pub is_current : Option String → String → Bool
is_current none j = false
is_current (some i) j = str_eq i j

-- How a call of `cancel` goes: it raises, it returns the record, or it waits for the eviction.
pub data Reply : Type 0 where
  raised : JobError → Reply
  returned : JobRecord → Reply
  suspended : Reply

abbrev pub reply_of : Result JobError JobRecord → Reply
reply_of (ok r) = returned r
reply_of (err e) = raised e

-- `cancel` up to its end, or up to its await.
unfoldable pub cancel_called : String → World → Reply × World
unfolding mark_cancelled
cancel_called j w = elim (try_get j w.store) [
  | none ↦ (raised (not_found j), w)
  | some r ↦
      if is_terminal r.status
      then (raised (transition r.status cancelled), w)
      else let marked = record w { cancelled_ids = j ∷ w.cancelled_ids } in
        if is_running r.status && is_current w.current j
        then (suspended, record marked { evicting = w.evicting ++ j ∷ [] })
        else let (result, w') = mark_cancelled j marked in (reply_of result, w')
]

-- The rest of `cancel`, once its `evict_all` has returned.
unfoldable pub cancel_resumed : String → List String → World → Reply × World
unfolding mark_cancelled
cancel_resumed j rest w =
    let (result, w') = mark_cancelled j (record w { evicting = rest }) in (reply_of result, w')

-- `submit_and_enqueue` past the validation: `store.submit`, then the queue if the job is new.
unfoldable pub submitted :
    String
    → String
    → String
    → String
    → Plane
    → Fields
    → Option String
    → World
    → Result JobError JobRecord × World
submitted fp job_id now mode plane params key w =
    elim (submit fp job_id now mode plane params key w.store) [
      | err e ↦ (err e, w)
      | ok (job, replayed, s) ↦ (
        ok job,
        record w { store = s; queue = if replayed then w.queue else w.queue ++ job.id ∷ [] },
      )
    ]
