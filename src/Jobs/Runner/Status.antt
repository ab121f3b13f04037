-- ===== src/Jobs/Runner/Status.antt =====
-- What each handler of the runner does to the statuses of the jobs.
use cosmos3_nano_web_ui.Common.{
  ◌≡◌, ◌∙◌, refl, sym, ap, fun_ext, inl, inr, true, false, Option, none, some, String, Result, ok,
  err, has, arith, str_eq, if◌then◌else◌, Option-cases, Bool-cases, str_cases,
}
use cosmos3_nano_web_ui.Common.Float
use cosmos3_nano_web_ui.Common.Float.{Float}
use cosmos3_nano_web_ui.Common.Value.{Fields, end, field, str, float}
use cosmos3_nano_web_ui.Common.Dict
use cosmos3_nano_web_ui.Common.Dict.{get-put}
use cosmos3_nano_web_ui.Jobs.Model.{
  status_value, is_running, JobStatus, queued, running, succeeded, failed, cancelled, JobRecord,
  JobError, transition, ErrorModel, is_terminal, start, progress, succeed, fail, cancel, clamp01,
}
use cosmos3_nano_web_ui.Jobs.Events.{progress_type}
use cosmos3_nano_web_ui.Jobs.Store.{JobStore, append_event, update}
use cosmos3_nano_web_ui.Jobs.Runner.{
  World, working, releasing, WorkResult, Failure, error_of, update_event, finish, acquired,
  failed_with, reported, report_fraction, worked, mark_cancelled,
}

-- The status of a job, if the store has it.
abbrev pub status_in : Option JobRecord → Option JobStatus
status_in none = none
status_in (some r) = some r.status

abbrev pub status_of : JobStore → String → Option JobStatus
status_of s j = status_in (Dict.get s.jobs j)

-- The statuses with one changed.
abbrev pub set_status : String → JobStatus → (String → Option JobStatus) → String → Option JobStatus
set_status j x st i = if str_eq j i then some x else st i

put_status :
    (s t : JobStore) (j : String) (r : JobRecord)
    → t.jobs ≡ Dict.put s.jobs j r
    → status_of t ≡ set_status j r.status (status_of s)
put_status s t j r e = fun_ext λ i. rw (e) (ground (arith, get-put s.jobs j i r))

-- The record of a job whose status is known.
pub record_of :
    (s : JobStore) (j : String) {x : JobStatus}
    → status_of s j ≡ some x
    → (r : JobRecord) × (Dict.get s.jobs j ≡ some r) × (r.status ≡ x)
record_of s j h = elim (Option-cases (Dict.get s.jobs j)) [
  | inl e ↦ absurd (ground arith)
  | inr (r, e) ↦ (r, e, ground arith)
]

-- An update whose function returns is a change of one status.
module _ (fn : JobRecord → Result JobError JobRecord) (j type : String) (payload : Fields)
    (s : JobStore) where
  update_event_is :
      (r r' : JobRecord)
      → Dict.get s.jobs j ≡ some r
      → fn r ≡ ok r'
      → update_event j fn type payload s
        ≡ ok (r', (append_event j type payload (record s { jobs = Dict.put s.jobs j r' })).1)
  unfolding update_event update
  update_event_is r r' e q = ground arith

  pub update_event_ok :
      {x : JobStatus} (y : JobStatus)
      → status_of s j ≡ some x
      → ((r : JobRecord) → r.status ≡ x → (r' : JobRecord) × (fn r ≡ ok r') × (r'.status ≡ y))
      → (out : JobRecord × JobStore) × (update_event j fn type payload s ≡ ok out)
        × (status_of out.1 ≡ set_status j y (status_of s))
  unfolding append_event
  update_event_ok y h f =
      let (r, e, p) = record_of s j h in
      let (r', q, p') = f r p in
      (
        (r', (append_event j type payload (record s { jobs = Dict.put s.jobs j r' })).1),
        update_event_is r r' e q,
        put_status s (append_event j type payload (record s { jobs = Dict.put s.jobs j r' })).1 j r'
              refl
            ∙ ap (λ z. set_status j z (status_of s)) p',
      )

  pub update_event_err :
      {x : JobStatus}
      → status_of s j ≡ some x
      → ((r : JobRecord) → r.status ≡ x → (e : JobError) × (fn r ≡ err e))
      → (e : JobError) × (update_event j fn type payload s ≡ err e)
  unfolding update_event update
  update_event_err h f = let (r, e, p) = record_of s j h in let (x, q) = f r p in (x, ground arith)

start_ok :
    (r : JobRecord)
    → r.status ≡ queued
    → (r' : JobRecord) × (start r ≡ ok r') × (r'.status ≡ running)
unfolding start
start_ok r h = (record r { status = running }, ground arith, refl)

fail_ok :
    (e : ErrorModel) (r : JobRecord)
    → is_terminal r.status ≡ false
    → (r' : JobRecord) × (fail e r ≡ ok r') × (r'.status ≡ failed)
unfolding fail
fail_ok e r h = (record r { status = failed; error = some e }, ground arith, refl)

cancel_ok :
    (r : JobRecord)
    → is_terminal r.status ≡ false
    → (r' : JobRecord) × (cancel r ≡ ok r') × (r'.status ≡ cancelled)
unfolding cancel
cancel_ok r h = (record r { status = cancelled }, ground arith, refl)

succeed_ok :
    (a : String) (m : Fields) (r : JobRecord)
    → r.status ≡ running
    → (r' : JobRecord) × (succeed a (some m) r ≡ ok r') × (r'.status ≡ succeeded)
unfolding succeed
succeed_ok a m r h = (
  record r {
    status = succeeded;
    artifact_path = some a;
    progress = Float.one;
    result_meta = some m;
  },
  ground arith,
  refl,
)

cancel_err : (r : JobRecord) → is_terminal r.status ≡ true → (e : JobError) × (cancel r ≡ err e)
unfolding cancel
cancel_err r h = (transition r.status cancelled, ground arith)

-- The handlers that change a status, where their guards hold. In each case the internal update
-- returns: the lifecycle error of the store is not met.
module _ (j : String) (w : World) where
  pub acquired_lem :
      status_of w.store j ≡ some queued
      → has w.cancelled_ids j ≡ false
      → (s : JobStore) × (acquired j w ≡ record w { store = s; loop = working j })
        × (status_of s ≡ set_status j running (status_of w.store))
  unfolding acquired
  acquired_lem h n =
      let (out, e, c) =
        update_event_ok start j (status_value running) end w.store running h start_ok in
      (out.1, rw (n, e) refl, c)

  pub failed_lem :
      (x : JobStatus) (f : Failure)
      → status_of w.store j ≡ some x
      → is_terminal x ≡ false
      → has w.cancelled_ids j ≡ false
      → (s : JobStore) × (failed_with j f w ≡ record w { store = s; loop = releasing j })
        × (status_of s ≡ set_status j failed (status_of w.store))
  unfolding failed_with error_of
  failed_lem x f h t n =
      let (out, e, c) =
        update_event_ok (fail (error_of f)) j (status_value failed)
          (field "message" (str f.message) end) w.store failed h
          (λ r p. fail_ok (error_of f) r (rw p t)) in
      (out.1, rw (n, e) refl, c)

  pub worked_lem :
      (result : WorkResult)
      → status_of w.store j ≡ some running
      → has w.cancelled_ids j ≡ false
      → (s : JobStore) × (worked j result w ≡ finish j (record w { store = s }))
        × (status_of s ≡ set_status j succeeded (status_of w.store))
  unfolding worked
  worked_lem result h n =
      let (out, e, c) =
        update_event_ok (succeed result.artifact_path (some result.meta)) j (status_value succeeded)
          result.meta w.store succeeded h (succeed_ok result.artifact_path result.meta) in
      (out.1, rw (n, e) refl, c)

  pub mark_cancelled_lem :
      (x : JobStatus)
      → status_of w.store j ≡ some x
      → is_terminal x ≡ false
      → (s : JobStore) × ((mark_cancelled j w).1 ≡ record w { store = s })
        × (status_of s ≡ set_status j cancelled (status_of w.store))
  unfolding mark_cancelled
  mark_cancelled_lem x h t =
      let (out, e, c) =
        update_event_ok cancel j (status_value cancelled) end w.store cancelled h
          (λ r p. cancel_ok r (rw p t)) in
      (out.1, rw (mark_cancelled, e) refl, c)

  pub mark_cancelled_again :
      (x : JobStatus)
      → status_of w.store j ≡ some x
      → is_terminal x ≡ true
      → (mark_cancelled j w).1 ≡ w
  unfolding mark_cancelled
  mark_cancelled_again x h t =
      let (x, e) =
        update_event_err cancel j (status_value cancelled) end w.store h
          (λ r p. cancel_err r (rw p t)) in
      rw (mark_cancelled, e) refl

  -- A handler for an id that has been cancelled only goes to the `finally`.
  pub acquired_cancelled : has w.cancelled_ids j ≡ true → acquired j w ≡ finish j w
  unfolding acquired
  acquired_cancelled h = rw h

  pub failed_cancelled :
      (f : Failure) → has w.cancelled_ids j ≡ true → failed_with j f w ≡ finish j w
  unfolding failed_with error_of
  failed_cancelled f h = rw h

  pub worked_cancelled : (r : WorkResult) → has w.cancelled_ids j ≡ true → worked j r w ≡ finish j w
  unfolding worked
  worked_cancelled r h = rw h

-- A progress report changes no status.
report_ok :
    (f : Float) (r : JobRecord)
    → (r' : JobRecord) × (report_fraction f r ≡ ok r') × (r'.status ≡ r.status)
unfolding report_fraction progress
report_ok f r = elim (Bool-cases (is_running r.status)) [
  | inl e ↦ (record r { progress = clamp01 f }, ground arith, refl)
  | inr e ↦ (r, ground arith, refl)
]

same_status :
    (s t : JobStore) (j : String) (r r' : JobRecord)
    → Dict.get s.jobs j ≡ some r
    → r'.status ≡ r.status
    → t.jobs ≡ Dict.put s.jobs j r'
    → status_of t ≡ status_of s
same_status s t j r r' h e q = fun_ext λ i. rw (q) (elim (str_cases j i) [
  | inl p ↦
      simp (get-put, p.1)
        (ap some e ∙ sym (ap status_in (sym (ap (λ x. Dict.get s.jobs x) p.0) ∙ h)))
  | inr p ↦ simp (get-put, p.1) refl
])

pub reported_lem :
    (j : String) (f : Float) (w : World)
    → (s : JobStore) × (reported j f w ≡ record w { store = s }) × (status_of s ≡ status_of w.store)
unfolding reported append_event update
reported_lem j f w = elim (Option-cases (Dict.get w.store.jobs j)) [
  | inl e ↦ (w.store, rw (reported, update, e) refl, refl)
  | inr (r, e) ↦
      let (r', q, p) = report_ok f r in
      let t : JobStore = record w.store { jobs = Dict.put w.store.jobs j r' } in
      elim (Bool-cases (is_running r'.status)) [
        | inl d ↦ (
          (append_event j progress_type (field "progress" (float r'.progress) end) t).1,
          ground arith,
          same_status w.store
              (append_event j progress_type (field "progress" (float r'.progress) end) t).1 j r r' e
              p refl,
        )
        | inr d ↦ (t, ground arith, same_status w.store t j r r' e p refl)
      ]
]
