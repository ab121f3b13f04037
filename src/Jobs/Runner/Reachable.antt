-- ===== src/Jobs/Runner/Reachable.antt =====
-- What holds in every world that the runner reaches, in every interleaving.
use cosmos3_nano_web_ui.Common.{
  ◌≡◌, ◌≢◌, ◌∙◌, refl, ap, subst, ◌⊎◌, inl, inr, Bool, true, Option, some, String, List, [], ◌∷◌,
  has, arith, eq_refl, str_cases,
}
use cosmos3_nano_web_ui.Common.Dict
use cosmos3_nano_web_ui.Jobs.Store
use cosmos3_nano_web_ui.Jobs.Model.{
  JobStatus, JobRecord, queued, running, succeeded, failed, cancelled, is_terminal,
}
use cosmos3_nano_web_ui.Jobs.Runner.{
  World, Loop, waiting, leasing, acquiring, working, releasing, cancel_resumed,
}
use cosmos3_nano_web_ui.Jobs.Runner.Steps.{
  init, Step, take, lease, acquire_ok, acquire_err, report, work_ok, work_err, release, cancel,
  resume, submit, Run, here, next,
}
use cosmos3_nano_web_ui.Jobs.Runner.Status.{status_in, status_of}
use cosmos3_nano_web_ui.Jobs.Runner.Serial.{IsSerial, IsSerial-alone, finish_lem}
use cosmos3_nano_web_ui.Jobs.Runner.Fits.{after, place, fits, running_is}
use cosmos3_nano_web_ui.Jobs.Runner.Keeps.{
  acquired-IsSerial, failed-IsSerial_acquiring, failed-IsSerial_working, worked-IsSerial,
  reported-IsSerial, fit_at,
}
use cosmos3_nano_web_ui.Jobs.Runner.Cancels.{
  cancel_called-IsSerial, cancel_resumed-IsSerial, cancel_resumed_lem,
}
use cosmos3_nano_web_ui.Jobs.Runner.Calls.{dequeued-IsSerial, submitted-IsSerial}

pub init-IsSerial : IsSerial init
unfolding init fits Dict.get Store.init
init-IsSerial = record {
  fit = λ i. refl;
  current = refl;
  single = λ i k a b. cc;
  evicts = λ i k a b. cc;
}

released :
    (x : Option JobStatus) (q c e : Bool)
    → fits x q c e after ≡ true
    → (x ≢ some queued) × (x ≢ some running)
unfolding fits
released x q c e f = (λ p. ground arith, λ p. ground arith)

Step-IsSerial : {w v : World} → Step w v → IsSerial w → IsSerial v
Step-IsSerial {w} (take j rest l q) s = dequeued-IsSerial j rest w l q s
Step-IsSerial {w} (lease j l) s = record {
  fit = λ i.
      subst
        (λ x.
          fits (status_of w.store i) (has w.queue i) (has w.cancelled_ids i) (has w.evicting i) x
          ≡ true)
        (ap (λ x. place x i) l) (s.fit i);
  current = s.current ∙ rw l refl;
  single = s.single;
  evicts = λ i k a b. ground arith;
}
Step-IsSerial {w} (acquire_ok j l e) s = acquired-IsSerial j w l e s
Step-IsSerial {w} (acquire_err j e l) s = failed-IsSerial_acquiring j e w l s
Step-IsSerial {w} (report j f l) s = reported-IsSerial j f w s
Step-IsSerial {w} (work_ok j r l) s = worked-IsSerial j r w l s
Step-IsSerial {w} (work_err j e l) s = failed-IsSerial_working j e w l s
Step-IsSerial {w} (release j l) s =
    let (a, b) =
      released (status_of w.store j) (has w.queue j) (has w.cancelled_ids j) (has w.evicting j)
        (fit_at w j after s (rw l (rw (eq_refl j) refl))) in
    finish_lem j w s (rw l refl) a (λ p. absurd (b p))
Step-IsSerial {w} (cancel j) s = cancel_called-IsSerial j w s
Step-IsSerial {w} (resume j rest e) s = cancel_resumed-IsSerial j w s rest e
Step-IsSerial {w} (submit fp job_id now mode plane params key f) s =
    submitted-IsSerial fp job_id now mode plane params key w f s

pub Run-IsSerial : {w v : World} → Run w v → IsSerial w → IsSerial v
Run-IsSerial here s = s
Run-IsSerial (next r t) s = Step-IsSerial t (Run-IsSerial r s)

-- In every world that the runner reaches from its start, by any interleaving of the drain loop, the
-- work thread, submissions and cancels, at most one job is running.
pub Run-alone :
    (w : World) (i k : String)
    → Run init w
    → status_of w.store i ≡ some running
    → status_of w.store k ≡ some running
    → i ≡ k
Run-alone w i k r a b = IsSerial-alone w i k (Run-IsSerial r init-IsSerial) a b

queued_is :
    (l : Loop) (i : String) (q c e : Bool)
    → fits (some queued) q c e (place l i) ≡ true
    → (q ≡ true) ⊎ (l ≡ leasing i) ⊎ (l ≡ acquiring i)
unfolding fits
queued_is waiting i q c e f = inl (ground arith)
queued_is (leasing j) i q c e f = elim (str_cases j i) [
  | inl p ↦ inr (inl (ap leasing p.0))
  | inr p ↦ inl (ground arith)
]
queued_is (acquiring j) i q c e f = elim (str_cases j i) [
  | inl p ↦ inr (inr (ap acquiring p.0))
  | inr p ↦ inl (ground arith)
]
queued_is (working j) i q c e f = inl (ground arith)
queued_is (releasing j) i q c e f = inl (ground arith)

fit_known :
    (w : World) (i : String) (x : JobStatus)
    → Run init w
    → status_of w.store i ≡ some x
    → fits (some x) (has w.queue i) (has w.cancelled_ids i) (has w.evicting i) (place w.loop i)
      ≡ true
fit_known w i x r h =
    subst
      (λ y.
        fits y (has w.queue i) (has w.cancelled_ids i) (has w.evicting i) (place w.loop i) ≡ true)
      h ((Run-IsSerial r init-IsSerial).fit i)

-- No job is lost: in every world that the runner reaches, a queued job is in the queue or is the one
-- that the drain loop is about to start.
pub Run-queued :
    (w : World) (i : String)
    → Run init w
    → status_of w.store i ≡ some queued
    → (has w.queue i ≡ true) ⊎ (w.loop ≡ leasing i) ⊎ (w.loop ≡ acquiring i)
Run-queued w i r h =
    queued_is w.loop i (has w.queue i) (has w.cancelled_ids i) (has w.evicting i)
      (fit_known w i queued r h)

-- No job is left running: in every world that the runner reaches, a running job is the one whose work
-- is under way, or one that a cancel has still to mark when its eviction returns.
pub Run-running :
    (w : World) (i : String)
    → Run init w
    → status_of w.store i ≡ some running
    → (w.loop ≡ working i) ⊎ (has w.evicting i ≡ true)
Run-running w i r h =
    running_is w.loop i (has w.queue i) (has w.cancelled_ids i) (has w.evicting i)
      (fit_known w i running r h)

-- When the drain loop waits at an empty queue and no cancel waits for its eviction, every job of the
-- store has reached a terminal status.
pub Run-drained :
    (w : World) (i : String) (job : JobRecord)
    → Run init w
    → w.loop ≡ waiting
    → w.queue ≡ []
    → w.evicting ≡ []
    → Dict.get w.store.jobs i ≡ some job
    → is_terminal job.status ≡ true
Run-drained w i job r l q e h = go job.status (ap status_in h)
  where
    go : (x : JobStatus) → status_of w.store i ≡ some x → is_terminal x ≡ true
    go queued p = elim (Run-queued w i r p) [
      | inl a ↦ absurd (ground arith)
      | inr (inl a) ↦ absurd (ground arith)
      | inr (inr a) ↦ absurd (ground arith)
    ]
    go running p = elim (Run-running w i r p) [
      | inl a ↦ absurd (ground arith)
      | inr a ↦ absurd (ground arith)
    ]
    go succeeded p = refl
    go failed p = refl
    go cancelled p = refl

-- A cancel always wins over the work: once it waits for the eviction of a running job, whatever the
-- loop and the other calls do meanwhile, the job is cancelled when the cancel goes on.
pub Run-cancelled :
    (w : World) (j : String) (rest : List String)
    → Run init w
    → w.evicting ≡ j ∷ rest
    → status_of (cancel_resumed j rest w).1.store j ≡ some cancelled
Run-cancelled w j rest r h =
    let (u, p, c, o, f) = cancel_resumed_lem j w (Run-IsSerial r init-IsSerial) rest h in rw p c
