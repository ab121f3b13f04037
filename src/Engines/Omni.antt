-- ===== src/Engines/Omni.antt =====
-- The client of the generation server, api/engines/vllm_omni/client.py: the status of a job, the
-- progress that is reported, and the polling of run_video_job and run_action_job. The transport's
-- answers, and what the clock makes of a round, are arguments; a Python float is divided outside of
-- the model, and comparisons of floats are made in it.
pub mod Progress
pub mod Polling
pub mod Work
use cosmos3_nano_web_ui.Common.{
  ℕ, zero, suc, ◌+◌, ◌*◌, ◌^◌, ◌==◌, ℤ, pos, negsuc, Bool, true, false, not, Option, none, some,
  String, List, [], ◌∷◌, str_eq, if◌then◌else◌, Result, ok, err,
}
use cosmos3_nano_web_ui.Common.Float
use cosmos3_nano_web_ui.Common.Float.{Float, nan, neg_inf, fin, pos_inf}
use cosmos3_nano_web_ui.Common.Value.{Value, Items, arr, obj, none_left, item, get}

-- `min(a, b)` and `max(a, b)`, which keep the first where neither is smaller.
abbrev pub min : Float → Float → Float
min a b = if Float.lt b a then b else a

abbrev pub max : Float → Float → Float
max a b = if Float.lt a b then b else a

-- 0.95 is 4278419646001971 / 2^52.
unfoldable pub cap : ℕ
cap = 4278419646001971 * 2 ^ 1022

-- `_POLL_PROGRESS_CAP`.
abbrev pub poll_progress_cap : Float
poll_progress_cap = fin (pos cap)

-- A status document: the text of its status in small letters, `progress / 100` where that is a
-- number, and the `action` of a completed job.
pub record Reply : Type 0 where
  pub code : ℕ
  pub status : String
  pub progress : Option Float
  pub action : Option Value

pub data State : Type 0 where
  completed failed pending : State

abbrev pub state_of : String → State
state_of s =
    if str_eq s "completed" then completed else if str_eq s "failed" then failed else pending

abbrev pub clamp : Option Float → Option Float
clamp none = none
clamp (some f) = some (max Float.zero (min Float.one f))

-- `parse_status`.
unfoldable pub parse_status : Reply → State × Option Float
parse_status r = (state_of r.status, clamp r.progress)

-- `expected <= 0`.
abbrev pub is_nonpositive : Float → Bool
is_nonpositive nan = false
is_nonpositive neg_inf = true
is_nonpositive (fin (pos zero)) = true
is_nonpositive (fin (pos (suc n))) = false
is_nonpositive (fin (negsuc n)) = true
is_nonpositive pos_inf = false

-- `_progress_fraction`; `ramp` is `elapsed / expected`.
unfoldable pub progress_fraction : Option Float → Float → Float → Float
progress_fraction (some f) expected ramp = min poll_progress_cap (max Float.zero f)
progress_fraction none expected ramp =
    if is_nonpositive expected then Float.zero else min poll_progress_cap (max Float.zero ramp)

-- What one round of the loop meets: whether the deadline has passed, the answer to the poll, `none`
-- where the transport raises, and the elapsed part of the expected time.
pub record Round : Type 0 where
  pub late : Bool
  pub reply : Option Reply
  pub ramp : Float

-- The `code` of a `VideoJobError`, or what the transport or the file system raises.
pub data Failure : Type 0 where
  timeout generation_failed internal_error untrusted_path unsupported_mode invalid_input : Failure
  payload_too_large raised : Failure

pub data Ended : Type 0 where
  done : Reply → Ended
  broken : Failure → Ended
  out_of_fuel : Ended

-- How the loop ends, the fractions that it reported, and whether it deleted the job.
pub record Polled : Type 0 where
  pub ended : Ended
  pub reports : List Float
  pub deleted : Bool

abbrev pub stop : Ended → Bool → Polled
stop e d = record { ended = e; reports = []; deleted = d }

abbrev pub reporting : Float → Polled → Polled
reporting f p = record { ended = p.ended; reports = f ∷ p.reports; deleted = p.deleted }

-- What a round does: the end of the loop, with a delete or not, or the server's fraction.
pub data Step : Type 0 where
  ends : Ended → Bool → Step
  goes_on : Option Float → Step

abbrev pub by_state : Reply → State → Option Float → Step
by_state r completed f = ends (done r) false
by_state r failed f = ends (broken generation_failed) false
by_state r pending f = goes_on f

unfoldable pub poll_round : Round → Step
unfolding parse_status
poll_round r = if r.late then ends (broken timeout) true else elim r.reply [
  | none ↦ ends (broken raised) false
  | some reply ↦
      if not (reply.code == 200)
      then ends (broken generation_failed) false
      else by_state reply (parse_status reply).0 (parse_status reply).1
]

-- The loop of `run_video_job` and of `run_action_job` from round `i`.
unfoldable pub poll : ℕ → (ℕ → Round) → ℕ → Float → Float → Polled
unfolding poll_round progress_fraction
poll zero rounds i expected reported = stop out_of_fuel false
poll (suc fuel) rounds i expected reported = elim (poll_round (rounds i)) [
  | ends e d ↦ stop e d
  | goes_on f ↦ reporting (max reported (progress_fraction f expected (rounds i).ramp)) (
      poll fuel rounds (suc i) expected
        (max reported (progress_fraction f expected (rounds i).ramp)))
]

pub record Job (A : Type 0) : Type 0 where
  pub result : Result Failure A
  pub reports : List Float
  pub deleted : Bool

-- The answer of `post_form`: `none` where it raises, else the job's id, if it has one.
abbrev pub submitted : {A : Type 0} → Option (Option String) → Job A → Job A
submitted none job = record { result = err raised; reports = []; deleted = false }
submitted (some none) job = record { result = err internal_error; reports = []; deleted = false }
submitted (some (some s)) job =
    if str_eq s ""
    then record { result = err internal_error; reports = []; deleted = false }
    else record { result = job.result; reports = Float.zero ∷ job.reports; deleted = job.deleted }

abbrev pub content : Option (List ℕ) → Result Failure (List ℕ)
content none = err raised
content (some bytes) = ok bytes

abbrev pub downloaded : Ended → Option (List ℕ) → Result Failure (List ℕ)
downloaded (done r) bytes = content bytes
downloaded (broken e) bytes = err e
downloaded out_of_fuel bytes = err raised

-- `run_video_job`; `bytes` is what `get_bytes` returns, if it does not raise.
unfoldable pub run_video_job :
    Option (Option String) → ℕ → (ℕ → Round) → Float → Option (List ℕ) → Job (List ℕ)
unfolding poll
run_video_job id fuel rounds expected bytes =
    let p = poll fuel rounds 0 expected Float.zero in
    submitted id
      record { result = downloaded p.ended bytes; reports = p.reports; deleted = p.deleted }

-- The list under `data` of a usable action: a `dict` with a list there that is not empty.
abbrev pub usable : Option Value → Option Items
usable (some (obj fs)) = elim (get fs "data") [
  | some (arr none_left) ↦ none
  | some (arr (item x xs)) ↦ some (item x xs)
  | _ ↦ none
]
usable _ = none

abbrev pub with_video : Bool → Option (List ℕ) → Items → Result Failure (Items × Option (List ℕ))
with_video false bytes xs = ok (xs, none)
with_video true none xs = err raised
with_video true (some bytes) xs = ok (xs, some bytes)

abbrev pub predicted :
    Bool → Option (List ℕ) → Option Items → Result Failure (Items × Option (List ℕ))
predicted want_video bytes none = err generation_failed
predicted want_video bytes (some xs) = with_video want_video bytes xs

abbrev pub action_ended : Bool → Option (List ℕ) → Ended → Result Failure (Items × Option (List ℕ))
action_ended want_video bytes (done r) = predicted want_video bytes (usable r.action)
action_ended want_video bytes (broken e) = err e
action_ended want_video bytes out_of_fuel = err raised

-- `run_action_job`: the trajectory and, where it is wanted, the video.
unfoldable pub run_action_job :
    Bool
    → Option (Option String)
    → ℕ
    → (ℕ → Round)
    → Float
    → Option (List ℕ)
    → Job (Items × Option (List ℕ))
unfolding poll
run_action_job want_video id fuel rounds expected bytes =
    let p = poll fuel rounds 0 expected Float.zero in
    submitted id record {
      result = action_ended want_video bytes p.ended;
      reports = p.reports;
      deleted = p.deleted;
    }

-- `run_image_job`: the document's base64 text, `none` where it is missing, decoded, if it can be.
unfoldable pub run_image_job :
    (String → Option (List ℕ)) → Option (Option String) → Result Failure (List ℕ)
run_image_job decode none = err raised
run_image_job decode (some none) = err generation_failed
run_image_job decode (some (some b64)) = elim (decode b64) [
  | none ↦ err generation_failed
  | some bytes ↦ ok bytes
]

-- `run_forward_dynamics_job`: one answer, and one report before it.
unfoldable pub run_forward_dynamics_job : Option (List ℕ) → Job (List ℕ)
run_forward_dynamics_job bytes = record {
  result = content bytes;
  reports = Float.zero ∷ [];
  deleted = false;
}
