-- ===== src/Jobs/Model/Lifecycle.antt =====
-- The job lifecycle: which transitions exist, and what a transition leaves alone.
use cosmos3_nano_web_ui.Common.{
  ◌≡◌, refl, ◌<◌, String, true, false, Option, some, Result, ok, err, arith,
}
use cosmos3_nano_web_ui.Common.Float
use cosmos3_nano_web_ui.Common.Float.{Float}
use cosmos3_nano_web_ui.Common.Value.{Fields}
use cosmos3_nano_web_ui.Jobs.Model.{
  JobStatus, queued, running, succeeded, failed, cancelled, ErrorModel, JobRecord, JobError,
  transition, is_terminal, clamp01, start, progress, succeed, fail, cancel,
}

-- The operations of the module, as data.
pub data Op : Type 0 where
  start_op : Op
  progress_op : Float → Op
  succeed_op : String → Option Fields → Op
  fail_op : ErrorModel → Op
  cancel_op : Op

unfoldable pub apply : Op → JobRecord → Result JobError JobRecord
unfolding start progress succeed fail cancel
apply start_op = start
apply (progress_op f) = progress f
apply (succeed_op a m) = succeed a m
apply (fail_op e) = fail e
apply cancel_op = cancel

-- The lifecycle diagram: from which states an operation may be applied.
pub data Allowed : Op → JobStatus → Type 0 where
  starts : Allowed start_op queued
  ticks : (f : Float) → Allowed (progress_op f) running
  finishes : (a : String) (m : Option Fields) → Allowed (succeed_op a m) running
  fails_queued : (e : ErrorModel) → Allowed (fail_op e) queued
  fails_running : (e : ErrorModel) → Allowed (fail_op e) running
  cancels_queued : Allowed cancel_op queued
  cancels_running : Allowed cancel_op running

-- The state that an operation leads to.
abbrev pub target : Op → JobStatus
target start_op = running
target (progress_op f) = running
target (succeed_op a m) = succeeded
target (fail_op e) = failed
target cancel_op = cancelled

-- The record that an operation leads to where it is allowed.
abbrev moved : Op → JobRecord → JobRecord
moved start_op job = record job { status = running }
moved (progress_op f) job = record job { progress = clamp01 f }
moved (succeed_op a m) job = record job {
  status = succeeded;
  artifact_path = some a;
  progress = Float.one;
  result_meta = m;
}
moved (fail_op e) job = record job { status = failed; error = some e }
moved cancel_op job = record job { status = cancelled }

allowed :
    {op : Op} {s : JobStatus} (job : JobRecord)
    → Allowed op s
    → job.status ≡ s
    → (after : JobRecord) × (apply op job ≡ ok after) × (after.status ≡ target op)
unfolding apply
allowed job starts e = (moved start_op job, ground arith, refl)
allowed job (ticks f) e = (moved (progress_op f) job, ground arith, e)
allowed job (finishes a m) e = (moved (succeed_op a m) job, ground arith, refl)
allowed job (fails_queued x) e = (moved (fail_op x) job, ground arith, refl)
allowed job (fails_running x) e = (moved (fail_op x) job, ground arith, refl)
allowed job cancels_queued e = (moved cancel_op job, ground arith, refl)
allowed job cancels_running e = (moved cancel_op job, ground arith, refl)

refused :
    (op : Op) (s : JobStatus) (job : JobRecord)
    → job.status ≡ s
    → ¬ Allowed op s
    → apply op job ≡ err (transition s (target op))
unfolding apply
refused start_op queued job e h = absurd (h starts)
refused (progress_op f) running job e h = absurd (h (ticks f))
refused (succeed_op a m) running job e h = absurd (h (finishes a m))
refused (fail_op x) queued job e h = absurd (h (fails_queued x))
refused (fail_op x) running job e h = absurd (h (fails_running x))
refused cancel_op queued job e h = absurd (h cancels_queued)
refused cancel_op running job e h = absurd (h cancels_running)
refused _ _ job e h = ground arith

-- An operation succeeds exactly in the states that the diagram allows, and then leads to its
-- target; in every other state it raises the transition error that names the two states.
pub apply-Allowed :
    (op : Op) (job : JobRecord)
    → (Allowed op job.status
        → (after : JobRecord) × (apply op job ≡ ok after) × (after.status ≡ target op))
      × (¬ Allowed op job.status → apply op job ≡ err (transition job.status (target op)))
apply-Allowed op job = (λ h. allowed job h refl, λ h. refused op job.status job refl h)

-- Two records of one job: what identifies it and what was submitted agree.
pub record SameJob (a b : JobRecord) : Type 0 where
  pub id : a.id ≡ b.id
  pub mode : a.mode ≡ b.mode
  pub plane : a.plane ≡ b.plane
  pub created_at : a.created_at ≡ b.created_at
  pub params : a.params ≡ b.params
  pub fingerprint : a.idempotency_fingerprint ≡ b.idempotency_fingerprint

-- An operation that returns changes nothing of what identifies the job and what was submitted: its
-- id, mode, plane, time of creation, parameters and fingerprint.
pub apply-SameJob :
    (op : Op) (job : JobRecord) {after : JobRecord} → apply op job ≡ ok after → SameJob after job
unfolding apply
apply-SameJob start_op job h = ground arith
apply-SameJob (progress_op f) job h = ground arith
apply-SameJob (succeed_op a m) job h = ground arith
apply-SameJob (fail_op x) job h = ground arith
apply-SameJob cancel_op job h = ground arith

-- A terminal job refuses every operation.
pub apply_terminal :
    (op : Op) (job : JobRecord)
    → is_terminal job.status ≡ true
    → apply op job ≡ err (transition job.status (target op))
unfolding apply
apply_terminal start_op job h = ground arith
apply_terminal (progress_op f) job h = ground arith
apply_terminal (succeed_op a m) job h = ground arith
apply_terminal (fail_op x) job h = ground arith
apply_terminal cancel_op job h = ground arith

unit_pos : (0 < Float.unit) × Unit {0}
unfolding Float.unit
unit_pos = (omega arith, tt)

-- A reported fraction is clamped: it is not below 0.0 and not above 1.0 (NaN passes through).
pub clamp01_bounds :
    (f : Float)
    → (Float.lt (clamp01 f) Float.zero ≡ false) × (Float.lt Float.one (clamp01 f) ≡ false)
unfolding clamp01
clamp01_bounds f = ground (arith, unit_pos)
