-- ===== src/Jobs/Runner/Board.antt =====
-- What api/jobs/runner.py promises of the statuses of the jobs, with no queue, lock or thread: a board
-- of statuses and of the cancels that are not yet honoured, with one rule for each kind of event; and
-- that every step of the runner is the move that its event calls for.
use cosmos3_nano_web_ui.Common.{
  ◌≡◌, ◌≢◌, ◌∙◌, refl, sym, ap, subst, fun_ext, inl, inr, true, false, Option, none, some, String,
  List, [], ◌∷◌, ◌++◌, Bool, ◌⊎◌, ◌||◌, str_eq, if◌then◌else◌, has, arith, eq_refl, str_cases,
  Option-cases, Bool-cases,
}
use cosmos3_nano_web_ui.Common.Dict
use cosmos3_nano_web_ui.Jobs.Model.{
  JobStatus, JobRecord, queued, running, succeeded, failed, cancelled, is_terminal, is_queued,
}
use cosmos3_nano_web_ui.Jobs.Store
use cosmos3_nano_web_ui.Common.Value.{Fields}
use cosmos3_nano_web_ui.Orchestrator.Planes.{Plane}
use cosmos3_nano_web_ui.Jobs.Store.{JobStore, try_get, create, new_job}
use cosmos3_nano_web_ui.Jobs.Store.Idempotency.{create-jobs}
use cosmos3_nano_web_ui.Jobs.Runner.{
  World, acquiring, working, leasing, releasing, discard, reported, finish, dequeued, acquired,
  failed_with, worked, WorkResult, Failure, cancel_called, cancel_resumed, mark_cancelled,
  submitted,
}
use cosmos3_nano_web_ui.Jobs.Runner.Status.{
  status_of, status_in, set_status, acquired_lem, acquired_cancelled, failed_lem, failed_cancelled,
  worked_lem, worked_cancelled, reported_lem, mark_cancelled_lem, mark_cancelled_again,
}
use cosmos3_nano_web_ui.Jobs.Runner.Steps.{
  init, Step, take, lease, acquire_ok, acquire_err, report, work_ok, work_err, release, cancel,
  resume, submit, Run,
}
use cosmos3_nano_web_ui.Jobs.Runner.Serial.{IsSerial, has-discard}
use cosmos3_nano_web_ui.Jobs.Runner.Fits.{
  before, at_work, place, fits, before_queued, work_running, fits_absent,
}
use cosmos3_nano_web_ui.Jobs.Runner.Keeps.{fit_at, place_before, place_work}
use cosmos3_nano_web_ui.Jobs.Runner.Cancels.{cancel_called_lem, HasEnded}
use cosmos3_nano_web_ui.Jobs.Runner.Calls.{submitted_lem}
use cosmos3_nano_web_ui.Jobs.Runner.Reachable.{Run-IsSerial, init-IsSerial, Run-running}

pub record Board : Type 0 where
  pub status : String → Option JobStatus
  -- Whether a cancel of the job has been asked for that the drain loop has not seen yet.
  pub asked : String → Bool

abbrev pub board_of : World → Board
board_of w = record { status = status_of w.store; asked = has w.cancelled_ids }

-- The events of the runner, each with the job that it is about. A failure comes while the job is
-- queued (its plane is not acquired) or running (its work has raised).
pub data Label : Type 0 where
  takes leases acquires reports works releases cancels resumes submits : String → Label
  fails : JobStatus → String → Label

abbrev pub label : {w v : World} → Step w v → Label
label (take j rest l q) = takes j
label (lease j l) = leases j
label (acquire_ok j l e) = acquires j
label (acquire_err j f l) = fails queued j
label (report j f l) = reports j
label (work_ok j r l) = works j
label (work_err j f l) = fails running j
label (release j l) = releases j
label (cancel j) = cancels j
label (resume j rest e) = resumes j
label (submit fp job_id now mode plane params key f) = submits job_id

abbrev pub clear : String → (String → Bool) → String → Bool
clear j asked i = if str_eq j i then false else asked i

abbrev pub mark : String → (String → Bool) → String → Bool
mark j asked i = str_eq j i || asked i

-- Nothing changes; a cancel is honoured; the status of one job changes.
abbrev pub Same : Board → Board → Type 0
Same b c = (c.status ≡ b.status) × (c.asked ≡ b.asked)

abbrev pub Honours : String → Board → Board → Type 0
Honours j b c = (c.status ≡ b.status) × (c.asked ≡ clear j b.asked)

abbrev pub Sets : String → JobStatus → Board → Board → Type 0
Sets j x b c = c.status ≡ set_status j x b.status

-- What an event does. Where a cancel has been asked for, a dequeuing, the end of an acquisition, the end
-- of the work and a failure change no status and honour it. Where none has, an acquisition begins a
-- queued job while none is running, the end of the work completes a running one, and a failure fails
-- the one that it is about. A cancel cancels a job that has not ended, or, of a running one, is asked
-- for and cancels it when it goes on. A submission changes nothing, or admits a job that was not there.
abbrev pub Move : Label → Board → Board → Type 0
Move (takes j) b c = ((b.asked j ≡ true) × Honours j b c) ⊎ ((b.asked j ≡ false) × Same b c)
Move (leases j) b c = Same b c
Move (acquires j) b c =
    ((b.asked j ≡ true) × Honours j b c)
    ⊎ ((b.asked j ≡ false)
        × (b.status j ≡ some queued)
        × ((i : String) → b.status i ≢ some running)
        × Sets j running b c
        × (c.asked ≡ b.asked))
Move (fails x j) b c =
    ((b.asked j ≡ true) × Honours j b c)
    ⊎ ((b.asked j ≡ false) × (b.status j ≡ some x) × Sets j failed b c × (c.asked ≡ b.asked))
Move (reports j) b c = Same b c
Move (works j) b c =
    ((b.asked j ≡ true) × Honours j b c)
    ⊎ ((b.asked j ≡ false)
        × (b.status j ≡ some running)
        × Sets j succeeded b c
        × (c.asked ≡ clear j b.asked))
Move (releases j) b c = Honours j b c
Move (cancels j) b c =
    (HasEnded (b.status j) × Same b c)
    ⊎ ((b.status j ≡ some running) × (c.status ≡ b.status) × (c.asked ≡ mark j b.asked))
    ⊎ ((x : JobStatus) × (b.status j ≡ some x)
        × (is_terminal x ≡ false)
        × Sets j cancelled b c
        × (c.asked ≡ mark j b.asked))
Move (resumes j) b c =
    (x : JobStatus) × (b.status j ≡ some x)
    × (((is_terminal x ≡ true) × Same b c)
        ⊎ ((is_terminal x ≡ false) × Sets j cancelled b c × (c.asked ≡ b.asked)))
Move (submits j) b c = Same b c ⊎ ((b.status j ≡ none) × Sets j queued b c × (c.asked ≡ b.asked))

honoured : (j : String) (ids : List String) → has (discard j ids) ≡ clear j (has ids)
honoured j ids = fun_ext (λ i. has-discard j i ids)

finish-Honours : (j : String) (w : World) → Honours j (board_of w) (board_of (finish j w))
unfolding finish
finish-Honours j w = (refl, honoured j w.cancelled_ids)

-- A move to a world is one to any equal world.
along :
    (l : Label) (w v u : World)
    → v ≡ u
    → Move l (board_of w) (board_of u)
    → Move l (board_of w) (board_of v)
along l w v u e m = subst (λ (x : World). Move l (board_of w) (board_of x)) (sym e) m

dequeued-Move :
    (j : String) (rest : List String) (w : World)
    → Move (takes j) (board_of w) (board_of (dequeued j (record w { queue = rest })))
unfolding dequeued
dequeued-Move j rest w = elim (Bool-cases (has w.cancelled_ids j)) [
  | inl c ↦
      along (takes j) w (dequeued j (record w { queue = rest }))
        (record w { queue = rest; cancelled_ids = discard j w.cancelled_ids })
        (rw (dequeued, c) refl) (inl (c, (refl, honoured j w.cancelled_ids)))
  | inr c ↦ elim (Option-cases (Dict.get w.store.jobs j)) [
    | inl e ↦
        along (takes j) w (dequeued j (record w { queue = rest })) (record w { queue = rest })
          (ground arith) (inr (c, (refl, refl)))
    | inr (r, e) ↦ elim (Bool-cases (is_queued r.status)) [
      | inl d ↦
          along (takes j) w (dequeued j (record w { queue = rest }))
            (record w { queue = rest; current = some j; loop = leasing j }) (ground arith)
            (inr (c, (refl, refl)))
      | inr d ↦
          along (takes j) w (dequeued j (record w { queue = rest })) (record w { queue = rest })
            (ground arith) (inr (c, (refl, refl)))
    ]
  ]
]

module _ (w : World) (s : IsSerial w) where
  acquired-Move :
      (j : String)
      → w.loop ≡ acquiring j
      → ((i : String) → status_of w.store i ≢ some running)
      → Move (acquires j) (board_of w) (board_of (acquired j w))
  acquired-Move j l idle = elim (Bool-cases (has w.cancelled_ids j)) [
    | inl c ↦
        along (acquires j) w (acquired j w) (finish j w) (acquired_cancelled j w c)
          (inl (c, finish-Honours j w))
    | inr c ↦
        let (a, b) =
          before_queued (status_of w.store j) (has w.queue j) (has w.cancelled_ids j)
            (has w.evicting j) c (fit_at w j before s (place_before w j l)) in
        let (t, e, d) = acquired_lem j w a c in
        along (acquires j) w (acquired j w) (record w { store = t; loop = working j }) e
          (inr (c, a, idle, d, refl))
  ]

  failed-Move :
      (j : String) (f : Failure) (x : JobStatus)
      → is_terminal x ≡ false
      → (has w.cancelled_ids j ≡ false → status_of w.store j ≡ some x)
      → Move (fails x j) (board_of w) (board_of (failed_with j f w))
  failed-Move j f x n open_job = elim (Bool-cases (has w.cancelled_ids j)) [
    | inl c ↦
        along (fails x j) w (failed_with j f w) (finish j w) (failed_cancelled j w f c)
          (inl (c, finish-Honours j w))
    | inr c ↦
        let (t, e, d) = failed_lem j w x f (open_job c) n c in
        along (fails x j) w (failed_with j f w) (record w { store = t; loop = releasing j }) e
          (inr (c, open_job c, d, refl))
  ]

  at_work_running :
      (j : String)
      → w.loop ≡ working j
      → has w.cancelled_ids j ≡ false
      → status_of w.store j ≡ some running
  at_work_running j l c =
      (work_running (status_of w.store j) (has w.queue j) (has w.cancelled_ids j) (has w.evicting j)
        c (fit_at w j at_work s (place_work w j l))).0

  worked-Move :
      (j : String) (r : WorkResult)
      → w.loop ≡ working j
      → Move (works j) (board_of w) (board_of (worked j r w))
  unfolding finish
  worked-Move j r l = elim (Bool-cases (has w.cancelled_ids j)) [
    | inl c ↦
        along (works j) w (worked j r w) (finish j w) (worked_cancelled j w r c)
          (inl (c, finish-Honours j w))
    | inr c ↦
        let h = at_work_running j l c in
        let (t, e, d) = worked_lem j w r h c in
        along (works j) w (worked j r w) (finish j (record w { store = t })) e
          (inr (c, h, d, honoured j w.cancelled_ids))
  ]

  cancel_called-Move : (j : String) → Move (cancels j) (board_of w) (board_of (cancel_called j w).1)
  cancel_called-Move j = elim (cancel_called_lem j w) [
    | inl (e, o) ↦ along (cancels j) w (cancel_called j w).1 w e (inl (o, (refl, refl)))
    | inr (inl (a, b, e)) ↦
        along (cancels j) w (cancel_called j w).1
          (record w { cancelled_ids = j ∷ w.cancelled_ids; evicting = w.evicting ++ j ∷ [] }) e
          (inr (inl (a, refl, refl)))
    | inr (inr (x, a, t, e)) ↦
        let v : World = record w { cancelled_ids = j ∷ w.cancelled_ids } in
        let (u, q, d) = mark_cancelled_lem j v x a t in
        along (cancels j) w (cancel_called j w).1 (record v { store = u }) (e ∙ q)
          (inr (inr (x, a, t, d, refl)))
  ]

  resumed-Move :
      (j : String) (rest : List String)
      → w.evicting ≡ j ∷ rest
      → Move (resumes j) (board_of w) (board_of (cancel_resumed j rest w).1)
  unfolding cancel_resumed
  resumed-Move j rest h = elim (Option-cases (status_of w.store j)) [
    | inl e ↦ absurd (
        fits_absent (has w.queue j) (has w.cancelled_ids j) (has w.evicting j) (place w.loop j)
          (rw h (rw (eq_refl j) refl))
          (subst
            (λ y.
              fits y (has w.queue j) (has w.cancelled_ids j) (has w.evicting j) (place w.loop j)
              ≡ true)
            e (s.fit j)))
    | inr (x, e) ↦
        let v : World = record w { evicting = rest } in
        elim (Bool-cases (is_terminal x)) [
          | inl t ↦
              along (resumes j) w (mark_cancelled j v).1 v (mark_cancelled_again j v x e t)
                (x, e, inl (t, (refl, refl)))
          | inr t ↦
              let (u, q, d) = mark_cancelled_lem j v x e t in
              along (resumes j) w (mark_cancelled j v).1 (record v { store = u }) q
                (x, e, inr (t, d, refl))
        ]
  ]

  submitted-Move :
      (fp job_id now mode : String) (plane : Plane) (params : Fields) (key : Option String)
      → try_get job_id w.store ≡ none
      → Move
          (submits job_id)
          (board_of w)
          (board_of (submitted fp job_id now mode plane params key w).1)
  submitted-Move fp job_id now mode plane params key f =
      elim (submitted_lem fp job_id now mode plane params key w) [
        | inl e ↦
            along (submits job_id) w (submitted fp job_id now mode plane params key w).1 w e
              (inl (refl, refl))
        | inr e ↦
            let job = new_job fp job_id now mode plane params key in
            along (submits job_id) w (submitted fp job_id now mode plane params key w).1
              (record w { store = create job key w.store; queue = w.queue ++ job_id ∷ [] }) e
              (inr (ap status_in f, fun_ext (λ i. new_status job key i refl), refl))
      ]
    where
      new_status :
          (new : JobRecord) (key : Option String) (i : String)
          → new.status ≡ queued
          → status_of (create new key w.store) i ≡ set_status new.id queued (status_of w.store) i
      new_status new key i q = elim (str_cases new.id i) [
        | inl (a, b) ↦ rw (create-jobs, b) (ap some q)
        | inr (a, b) ↦ rw (create-jobs, b) refl
      ]

Step-Move : {w v : World} → Run init w → (t : Step w v) → Move (label t) (board_of w) (board_of v)
Step-Move {w} r (take j rest l q) = dequeued-Move j rest w
Step-Move {w} r (lease j l) = (refl, refl)
Step-Move {w} r (acquire_ok j l e) = acquired-Move w (Run-IsSerial r init-IsSerial) j l (λ i h.
    elim (Run-running w i r h) [ inl p ↦ absurd (cc) | inr p ↦ absurd (none_evicted i e p) ])
  where
    none_evicted : (i : String) → w.evicting ≡ [] → has w.evicting i ≡ true → ⊥
    none_evicted i e p = ground arith
Step-Move {w} r (acquire_err j f l) =
    let s = Run-IsSerial r init-IsSerial in
    failed-Move w s j f queued refl (λ c.
      (before_queued (status_of w.store j) (has w.queue j) (has w.cancelled_ids j)
        (has w.evicting j) c (fit_at w j before s (place_before w j l))).0)
Step-Move {w} r (report j f l) =
    let (t, e, d) = reported_lem j f w in
    along (reports j) w (reported j f w) (record w { store = t }) e (d, refl)
Step-Move {w} r (work_ok j result l) = worked-Move w (Run-IsSerial r init-IsSerial) j result l
Step-Move {w} r (work_err j f l) =
    let s = Run-IsSerial r init-IsSerial in
    failed-Move w s j f running refl (λ c. at_work_running w s j l c)
Step-Move {w} r (release j l) = finish-Honours j w
Step-Move {w} r (cancel j) = cancel_called-Move w (Run-IsSerial r init-IsSerial) j
Step-Move {w} r (resume j rest e) = resumed-Move w (Run-IsSerial r init-IsSerial) j rest e
Step-Move {w} r (submit fp job_id now mode plane params key f) =
    submitted-Move w (Run-IsSerial r init-IsSerial) fp job_id now mode plane params key f

-- In every world that the runner reaches, whatever the interleaving, each step that it can take is the
-- move that the step's event calls for on the board of statuses and of cancels asked for. Where a cancel
-- of the job has been asked for, a dequeuing, the end of an acquisition, the end of the work and a
-- failure change no status and honour the cancel. Where none has, the end of the work completes a
-- running job, an acquisition begins a queued one while none is running, and a failure fails the job
-- that it is about. A cancel never touches a job that has ended. And the first board is empty.
pub Run-Move :
    (w v : World) (r : Run init w) (t : Step w v)
    → Move (label t) (board_of w) (board_of v)
      × ((i : String) → ((board_of init).status i ≡ none) × ((board_of init).asked i ≡ false))
unfolding init Store.init Dict.get
Run-Move w v r t = (Step-Move r t, λ i. (refl, refl))
