-- ===== src/App/Tests.antt =====
-- Instances of the theorems on the edge.
use cosmos3_nano_web_ui.Common.{
  ◌≡◌, ◌↔◌, refl, ℤ, pos, false, String, Option, none, some, [], ◌∷◌, ok,
}
use cosmos3_nano_web_ui.Common.Float.{pos_inf}
use cosmos3_nano_web_ui.Common.Value.{Value, str, float, Fields, end, field}
use cosmos3_nano_web_ui.Orchestrator.Planes.{generation}
use cosmos3_nano_web_ui.Preprocessing.Limits.{default_limits}
use cosmos3_nano_web_ui.Preprocessing.Paths.{
  codes, has_nul, is_url, HasScheme, resolve_within, resolve_within_iff, BelowSome,
}
use cosmos3_nano_web_ui.App.Numbers.{
  require_int, require_int_iff, StandsFor, IsForeign, IsInfinite, EndsWith,
}
use cosmos3_nano_web_ui.App.Submission.{
  Env, JobSubmit, validate_submission, plane_for_mode, validate_conditioning_paths, check_path,
  validate_output_params, check_output,
}
use cosmos3_nano_web_ui.App.Submission.Accepted.{IsAccepted, validate_submission_lem}
use cosmos3_nano_web_ui.Common.{zero, suc, ◌++◌, ◌≡◌, ℕ, List, [], ◌∷◌, some, refl, arith}
use cosmos3_nano_web_ui.Common.Value.{end}
use cosmos3_nano_web_ui.Jobs.Model.{queued, failed, status_value}
use cosmos3_nano_web_ui.Jobs.Events.{JobEvent}
use cosmos3_nano_web_ui.Jobs.Events.Replay.{CountsFrom}
use cosmos3_nano_web_ui.Common.{All, ◌≢◌, true}
use cosmos3_nano_web_ui.Engines.ContextCap.{ContextCapConfig}
use cosmos3_nano_web_ui.App.Reasoning.{ReasoningBody, Payload, reason, effective, contained}
use cosmos3_nano_web_ui.App.Reasoning.Answered.{Budget, reason_iff}
use cosmos3_nano_web_ui.App.Stream.{Look, stream_events}
use cosmos3_nano_web_ui.App.Stream.Replayed.{EndsIn, stream_events_total}

abbrev same : String → String
same s = s

-- The tests of a path: a URL, a path with a drive letter, and one with a NUL.
path_tests :
    (is_url (codes "s3+x://a") ≡ true)
    × (is_url (codes "c:/a") ≡ false)
    × (is_url (codes "9p://a") ≡ false)
    × (has_nul (97 ∷ 0 ∷ []) ≡ true)
unfolding is_url has_nul
path_tests = (refl, refl, refl, refl)

-- Under the root `/` no ordinary path is accepted.
root_refuses : resolve_within same "/data/a.png" ("/" ∷ []) ≡ none
unfolding resolve_within
root_refuses = refl

resolve_within_iff_example :
    (resolve_within same "/data/a.png" ("/data" ∷ []) ≡ some "/data/a.png") ↔ (
      All (λ c. c ≢ 0) (codes "/data/a.png")
      × (HasScheme (codes "/data/a.png") → ⊥)
      × ("/data/a.png" ≡ same "/data/a.png")
      × BelowSome same "/data/a.png" ("/data" ∷ []))
resolve_within_iff_example = resolve_within_iff same "/data/a.png" ("/data" ∷ []) "/data/a.png"

abbrev no_number : String → Option ℤ
no_number s = none

abbrev infinite : Fields
infinite = field "num_frames" (float pos_inf) end

require_int_iff_example :
    ((z : ℤ)
      → (require_int no_number infinite "num_frames" ≡ ok z)
        ↔ StandsFor no_number (float pos_inf) z)
    × (EndsWith 422 (require_int no_number infinite "num_frames")
        ↔ IsForeign no_number (float pos_inf))
    × (EndsWith 500 (require_int no_number infinite "num_frames") ↔ IsInfinite (float pos_inf))
require_int_iff_example = require_int_iff no_number infinite "num_frames" (float pos_inf) refl

abbrev text : Value → String
text (str s) = s
text v = ""

abbrev env : Env
env = record {
  limits = default_limits;
  allowlist = "/data" ∷ [];
  realpath = same;
  parse = no_number;
  text_of = text;
  size_of = λ s. pos 0;
  decode = λ s. none;
  wave = λ b. none;
}

abbrev video_job : JobSubmit
video_job = record { mode = "t2v"; params = field "image_path" (str "/data") end; inline = none }

video_job_passes : validate_submission env video_job ≡ ok generation
unfolding validate_submission plane_for_mode validate_conditioning_paths check_path
    validate_output_params check_output resolve_within
video_job_passes = refl

validate_submission_lem_example : IsAccepted env video_job × (generation ≡ generation)
validate_submission_lem_example = validate_submission_lem env video_job generation video_job_passes

abbrev queued_event : JobEvent
queued_event = record { id = 1; type = "queued"; payload = end }

abbrev failed_event : JobEvent
failed_event = record { id = 2; type = "failed"; payload = end }

-- The job is queued in the first round and has failed in the next.
abbrev looks : ℕ → Look
looks zero = record { log = queued_event ∷ []; status = some queued }
looks (suc i) = record { log = queued_event ∷ failed_event ∷ []; status = some failed }

looks_grow : (i : ℕ) → (more : List JobEvent) × ((looks (suc i)).log ≡ (looks i).log ++ more)
looks_grow zero = (failed_event ∷ [], refl)
looks_grow (suc i) = ([], refl)

looks_count : (i : ℕ) → CountsFrom 1 (looks i).log
looks_count zero = (refl, tt)
looks_count (suc i) = (refl, (refl, tt))

stream_events_total_example : (m : ℕ) × EndsIn looks 0 1 1 m (stream_events 2 looks (some 1))
unfolding status_value
stream_events_total_example =
    stream_events_total looks 2 1 1 looks_grow looks_count (omega arith) (omega arith) refl

abbrev question : ReasoningBody
question = record { max_output_tokens = none; image_path = some "in/a.png"; video_path = some "" }

abbrev short_window : ContextCapConfig
short_window = record { max_context_tokens = pos 100; max_output_tokens = pos 100 }

-- A prompt of 40 tokens leaves 60 of 100 for the answer.
budget : effective short_window 40 none ≡ pos 60
unfolding effective
budget = refl

abbrev answer : Payload
answer = record { max_tokens = pos 60; image_path = some "in/a.png"; video_path = none }

reason_iff_example : (reason (λ s. some s) short_window 40 question ≡ ok answer) ↔ (
    Budget short_window 40 none (pos 60)
    × (contained (λ s. some s) (some "in/a.png") ≡ ok (some "in/a.png"))
    × (contained (λ s. some s) (some "") ≡ ok none))
reason_iff_example = reason_iff (λ s. some s) short_window 40 question answer
