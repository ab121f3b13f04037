-- ===== src/Jobs/Runner/Durable.antt =====
-- The runner uses the store only by its methods, and updates only by the lifecycle operations: what
-- holds of every use of a store holds of the runner's.
use cosmos3_nano_web_ui.Common.{
  ◌≡◌, refl, sym, subst, inl, inr, true, Option, none, some, String, ◌∷◌, Result, ok, Result-cases,
  has, arith, Option-cases, Bool-cases,
}
use cosmos3_nano_web_ui.Common.Dict
use cosmos3_nano_web_ui.Common.Float.{Float}
use cosmos3_nano_web_ui.Common.Value.{Fields, end, field, str, float}
use cosmos3_nano_web_ui.Jobs.Model.{
  JobRecord, JobError, ErrorModel, is_terminal, is_queued, is_running, status_value, running,
  failed, succeeded, cancelled, start, fail, succeed, cancel,
}
use cosmos3_nano_web_ui.Jobs.Model.Lifecycle.{
  start_op, progress_op, succeed_op, fail_op, cancel_op, apply,
}
use cosmos3_nano_web_ui.Jobs.Events.{progress_type}
use cosmos3_nano_web_ui.Jobs.Store.{JobStore, update, append_event, submit, try_get}
use cosmos3_nano_web_ui.Jobs.Store.Invariant.{IsValid, init-IsValid}
use cosmos3_nano_web_ui.Jobs.Store.Use.{
  IsLifecycle, logged, updated, submitted, Uses, here, next, Uses-IsValid,
}
use cosmos3_nano_web_ui.Jobs.Store.Idempotency.{Uses-terminal}
use cosmos3_nano_web_ui.Jobs.Runner.{
  World, Loop, working, releasing, Failure, WorkResult, error_of, update_event, went_on, acquired,
  failed_with, worked, reported, report_fraction, finish, dequeued, mark_cancelled, cancel_called,
  cancel_resumed,
}
use cosmos3_nano_web_ui.Jobs.Runner
use cosmos3_nano_web_ui.Orchestrator.Planes.{Plane}
use cosmos3_nano_web_ui.Jobs.Runner.Cancels.{cancel_called_lem}
use cosmos3_nano_web_ui.Jobs.Runner.Steps
use cosmos3_nano_web_ui.Jobs.Runner.Steps.{
  Step, take, lease, acquire_ok, acquire_err, report, work_ok, work_err, release, resume, Run,
}

update_event-Uses :
    (fn : JobRecord → Result JobError JobRecord) (j type : String) (payload : Fields) (s : JobStore)
    (out : JobRecord × JobStore)
    → IsLifecycle fn
    → update_event j fn type payload s ≡ ok out
    → Uses s out.1
unfolding update_event
update_event-Uses fn j type payload s out l h = elim (Result-cases (update j fn s)) [
  | inr (e, p) ↦ absurd (ground arith)
  | inl ((job, t), p) ↦
      subst (Uses s) (ground arith)
        (next (next here (updated j fn job l p)) (logged j type payload))
]

-- A stretch that goes on from an update.
went_on-Uses :
    (fn : JobRecord → Result JobError JobRecord) (j type : String) (payload : Fields) (w : World)
    (f : World → World)
    → IsLifecycle fn
    → ((v : World) → (f v).store ≡ v.store)
    → Uses w.store (went_on j w (update_event j fn type payload w.store) f).store
unfolding finish
went_on-Uses fn j type payload w f l same =
    elim (Result-cases (update_event j fn type payload w.store)) [
      | inr (e, p) ↦ rw p here
      | inl ((job, t), p) ↦ rw (p, same) (update_event-Uses fn j type payload w.store (job, t) l p)
    ]

start-IsLifecycle : IsLifecycle start
unfolding apply
start-IsLifecycle a b h = inr (start_op, h)

fail-IsLifecycle : (e : ErrorModel) → IsLifecycle (fail e)
unfolding apply
fail-IsLifecycle e a b h = inr (fail_op e, h)

succeed-IsLifecycle : (a : String) (m : Option Fields) → IsLifecycle (succeed a m)
unfolding apply
succeed-IsLifecycle p m a b h = inr (succeed_op p m, h)

cancel-IsLifecycle : IsLifecycle cancel
unfolding apply
cancel-IsLifecycle a b h = inr (cancel_op, h)

report-IsLifecycle : (f : Float) → IsLifecycle (report_fraction f)
unfolding report_fraction apply
report-IsLifecycle f a b h = elim (Bool-cases (is_running a.status)) [
  | inl e ↦ inr (progress_op f, ground arith)
  | inr e ↦ inl (ground arith)
]

acquired-Uses : (j : String) (w : World) → Uses w.store (acquired j w).store
unfolding acquired
acquired-Uses j w = elim (Bool-cases (has w.cancelled_ids j)) [
  | inl c ↦ rw c here
  | inr c ↦ rw c (
      went_on-Uses start j (status_value running) end w (λ w'. record w' { loop = working j })
        start-IsLifecycle (λ v. refl))
]

failed_with-Uses : (j : String) (e : Failure) (w : World) → Uses w.store (failed_with j e w).store
unfolding failed_with finish
failed_with-Uses j e w = elim (Bool-cases (has w.cancelled_ids j)) [
  | inl c ↦ rw c here
  | inr c ↦ rw c (
      went_on-Uses (fail (error_of e)) j (status_value failed)
        (field "message" (str (error_of e).message) end) w (λ w'. record w' { loop = releasing j })
        (fail-IsLifecycle (error_of e)) (λ v. refl))
]

worked-Uses : (j : String) (r : WorkResult) (w : World) → Uses w.store (worked j r w).store
unfolding worked finish
worked-Uses j r w = elim (Bool-cases (has w.cancelled_ids j)) [
  | inl c ↦ rw c here
  | inr c ↦ rw c (
      went_on-Uses (succeed r.artifact_path (some r.meta)) j (status_value succeeded) r.meta w
        (finish j) (succeed-IsLifecycle r.artifact_path (some r.meta)) (λ v. refl))
]

reported-Uses : (j : String) (f : Float) (w : World) → Uses w.store (reported j f w).store
unfolding reported
reported-Uses j f w = elim (Result-cases (update j (report_fraction f) w.store)) [
  | inr (e, p) ↦
      let q : (reported j f w).store ≡ w.store = ground arith in subst (Uses w.store) (sym q) here
  | inl ((job, t), p) ↦
      let u : Uses w.store t =
        next here (updated j (report_fraction f) job (report-IsLifecycle f) p) in
      elim (Bool-cases (is_running job.status)) [
        | inl d ↦
            let q : (reported j f w).store
                ≡ (append_event j progress_type (field "progress" (float job.progress) end) t).1 =
              ground arith in
            subst (Uses w.store) (sym q)
              (next u (logged j progress_type (field "progress" (float job.progress) end)))
        | inr d ↦
            let q : (reported j f w).store ≡ t = ground arith in subst (Uses w.store) (sym q) u
      ]
]

mark_cancelled-Uses : (j : String) (w : World) → Uses w.store (mark_cancelled j w).1.store
unfolding mark_cancelled
mark_cancelled-Uses j w =
    elim (Result-cases (update_event j cancel (status_value cancelled) end w.store)) [
      | inr (e, p) ↦
          let q : (mark_cancelled j w).1.store ≡ w.store = ground arith in
          subst (Uses w.store) (sym q) here
      | inl ((job, t), p) ↦
          let q : (mark_cancelled j w).1.store ≡ t = ground arith in
          subst (Uses w.store) (sym q) (
            update_event-Uses cancel j (status_value cancelled) end w.store (job, t)
              cancel-IsLifecycle p)
    ]

dequeued-same : (j : String) (w : World) → (dequeued j w).store ≡ w.store
unfolding dequeued
dequeued-same j w = elim (Bool-cases (has w.cancelled_ids j)) [
  | inl c ↦ rw c refl
  | inr c ↦ elim (Option-cases (Dict.get w.store.jobs j)) [
    | inl e ↦ rw (c, e) refl
    | inr (r, e) ↦ elim (Bool-cases (is_queued r.status)) [
      | inl d ↦ rw (c, e, d) refl
      | inr d ↦ rw (c, e, d) refl
    ]
  ]
]

cancel_called-Uses : (j : String) (w : World) → Uses w.store (cancel_called j w).1.store
cancel_called-Uses j w = elim (cancel_called_lem j w) [
  | inl (e, o) ↦ rw e here
  | inr (inl (a, b, e)) ↦ rw e here
  | inr (inr (x, a, t, e)) ↦
      rw e (mark_cancelled-Uses j (record w { cancelled_ids = j ∷ w.cancelled_ids }))
]

submitted-Uses :
    (fp job_id now mode : String) (plane : Plane) (params : Fields) (key : Option String)
    (w : World)
    → try_get job_id w.store ≡ none
    → Uses w.store (Runner.submitted fp job_id now mode plane params key w).1.store
unfolding Runner.submitted
submitted-Uses fp job_id now mode plane params key w f =
    elim (Result-cases (submit fp job_id now mode plane params key w.store)) [
      | inr (e, p) ↦
          let q : (Runner.submitted fp job_id now mode plane params key w).1.store ≡ w.store =
            ground arith in
          subst (Uses w.store) (sym q) here
      | inl ((job, replayed, t), p) ↦
          let q : (Runner.submitted fp job_id now mode plane params key w).1.store ≡ t =
            ground arith in
          subst (Uses w.store) (sym q)
            (next here (submitted fp job_id now mode plane params key job replayed f p))
    ]

Step-Uses : {w v : World} → Step w v → Uses w.store v.store
unfolding finish cancel_resumed
Step-Uses {w} (take j rest l q) = rw (dequeued-same j (record w { queue = rest })) here
Step-Uses {w} (lease j l) = here
Step-Uses {w} (acquire_ok j l e) = acquired-Uses j w
Step-Uses {w} (acquire_err j e l) = failed_with-Uses j e w
Step-Uses {w} (report j f l) = reported-Uses j f w
Step-Uses {w} (work_ok j r l) = worked-Uses j r w
Step-Uses {w} (work_err j e l) = failed_with-Uses j e w
Step-Uses {w} (release j l) = here
Step-Uses {w} (Steps.cancel j) = cancel_called-Uses j w
Step-Uses {w} (resume j rest e) = mark_cancelled-Uses j (record w { evicting = rest })
Step-Uses {w} (Steps.submit fp job_id now mode plane params key f) =
    submitted-Uses fp job_id now mode plane params key w f

Uses-trans : {s t u : JobStore} → Uses s t → Uses t u → Uses s u
Uses-trans a here = a
Uses-trans a (next b c) = next (Uses-trans a b) c

Run-Uses : {w v : World} → Run w v → Uses w.store v.store
Run-Uses Run.here = here
Run-Uses (Run.next r t) = Uses-trans (Run-Uses r) (Step-Uses t)

-- A job that has reached a terminal state keeps its whole record, whatever the loop, the work, the
-- cancels and the submissions do afterwards.
pub Run-terminal :
    (w v : World) (j : String) (job : JobRecord)
    → Run w v
    → Dict.get w.store.jobs j ≡ some job
    → is_terminal job.status ≡ true
    → Dict.get v.store.jobs j ≡ some job
Run-terminal w v j job r e t = Uses-terminal j job (Run-Uses r) e t

-- In every world that the runner reaches, the store is valid: each record stands under its own id,
-- each event log is numbered without gaps up to its counter and within the bound, and each key is
-- registered for a job that the store has.
pub Run-IsValid : (w : World) → Run Steps.init w → IsValid w.store
unfolding Steps.init
Run-IsValid w r = Uses-IsValid (Run-Uses r) init-IsValid
