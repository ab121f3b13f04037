-- ===== src/Jobs/Model.antt =====
-- api/jobs/model.py, with `JobStatus` and `ErrorModel` of api/app/schemas.py and the exceptions of
-- api/jobs/store.py. A raise is an `err`, and a copy-on-write `replace` is a new record.
pub mod Lifecycle
use cosmos3_nano_web_ui.Common.{
  String, Bool, true, false, Option, none, some, Result, ok, err, if◌then◌else◌,
}
use cosmos3_nano_web_ui.Common.Float
use cosmos3_nano_web_ui.Common.Float.{Float}
use cosmos3_nano_web_ui.Common.Value.{Fields}
use cosmos3_nano_web_ui.Orchestrator.Planes.{Plane}

pub data JobStatus : Type 0 where
  queued running succeeded failed cancelled : JobStatus

-- `JobStatus.value`.
unfoldable pub status_value : JobStatus → String
status_value queued = "queued"
status_value running = "running"
status_value succeeded = "succeeded"
status_value failed = "failed"
status_value cancelled = "cancelled"

pub record ErrorModel : Type 0 where
  pub code : String
  pub message : String
  pub details : Option Fields

pub record JobRecord : Type 0 where
  pub id : String
  pub mode : String
  pub plane : Plane
  pub status : JobStatus
  pub created_at : String
  pub params : Fields
  pub progress : Float
  pub artifact_path : Option String
  pub error : Option ErrorModel
  pub idempotency_fingerprint : Option String
  pub result_meta : Option Fields

-- `JobTransitionError(frm, to)`, `IdempotencyConflict(key)`, `JobNotFound(job_id)`, and the
-- `KeyError` of a subscript on a missing key.
pub data JobError : Type 0 where
  transition : JobStatus → JobStatus → JobError
  conflict : String → JobError
  not_found : String → JobError
  key_error : String → JobError

-- `status in _TERMINAL`.
abbrev pub is_terminal : JobStatus → Bool
is_terminal succeeded = true
is_terminal failed = true
is_terminal cancelled = true
is_terminal queued = false
is_terminal running = false

abbrev pub is_queued : JobStatus → Bool
is_queued queued = true
is_queued _ = false

abbrev pub is_running : JobStatus → Bool
is_running running = true
is_running _ = false

unfoldable pub clamp01 : Float → Float
clamp01 value =
    if Float.lt value Float.zero
    then Float.zero
    else if Float.lt Float.one value
    then Float.one
    else value

unfoldable pub start : JobRecord → Result JobError JobRecord
start job =
    if is_queued job.status
    then ok (record job { status = running })
    else err (transition job.status running)

unfoldable pub progress : Float → JobRecord → Result JobError JobRecord
unfolding clamp01
progress fraction job =
    if is_running job.status
    then ok (record job { progress = clamp01 fraction })
    else err (transition job.status running)

unfoldable pub succeed : String → Option Fields → JobRecord → Result JobError JobRecord
succeed artifact meta job =
    if is_running job.status
    then ok (record job {
      status = succeeded;
      artifact_path = some artifact;
      progress = Float.one;
      result_meta = meta;
    })
    else err (transition job.status succeeded)

unfoldable pub fail : ErrorModel → JobRecord → Result JobError JobRecord
fail error job =
    if is_terminal job.status
    then err (transition job.status failed)
    else ok (record job { status = failed; error = some error })

unfoldable pub cancel : JobRecord → Result JobError JobRecord
cancel job =
    if is_terminal job.status
    then err (transition job.status cancelled)
    else ok (record job { status = cancelled })
