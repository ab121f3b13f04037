-- ===== src/App/Stream.antt =====
-- The event stream of api/app/jobs_router.py, `stream_events` and its generator. Between two awaits of
-- the generator the job goes on, so each round has its own look at the store: the log as it is at the
-- round's beginning, and the record's status after the round's events have been sent.
pub mod Replayed
use cosmos3_nano_web_ui.Common.{
  ℕ, zero, suc, Bool, true, false, ◌||◌, Option, none, some, String, List, [], ◌∷◌, ◌++◌, map, any,
  has, if◌then◌else◌,
}
use cosmos3_nano_web_ui.Jobs.Model.{JobStatus, status_value}
use cosmos3_nano_web_ui.Jobs.Events.{JobEvent, events_since}

pub record Look : Type 0 where
  pub log : List JobEvent
  pub status : Option JobStatus

-- What `_sse` renders: an event, or a heartbeat with the id of the last one.
pub data Frame : Type 0 where
  sent_event : JobEvent → Frame
  heartbeat : ℕ → Frame

-- `_TERMINAL_EVENT_TYPES`.
abbrev pub terminal_event_types : List String
terminal_event_types = "succeeded" ∷ "failed" ∷ "cancelled" ∷ []

-- `sent` after the round's events.
abbrev pub last_sent : ℕ → List JobEvent → ℕ
last_sent sent [] = sent
last_sent sent (e ∷ more) = last_sent e.id more

abbrev pub is_over : Option JobStatus → Bool
is_over none = true
is_over (some s) = has terminal_event_types (status_value s)

-- `done or record is None or record.status.value in _TERMINAL_EVENT_TYPES`.
abbrev pub stops : List JobEvent → Option JobStatus → Bool
stops new status = any (λ e. has terminal_event_types e.type) new || is_over status

-- The frames that are sent, and whether the stream has ended.
pub record Sent : Type 0 where
  pub frames : List Frame
  pub closed : Bool

abbrev pub before : List Frame → Sent → Sent
before fs s = record { frames = fs ++ s.frames; closed = s.closed }

-- The loop of `gen` from round `i`.
unfoldable pub gen : ℕ → (ℕ → Look) → ℕ → ℕ → Sent
unfolding events_since
gen zero looks i sent = record { frames = []; closed = false }
gen (suc fuel) looks i sent =
    let new = events_since (looks i).log (some sent) in
    let rest = gen fuel looks (suc i) (last_sent sent new) in
    if stops new (looks i).status
    then record { frames = map sent_event new; closed = true }
    else before (map sent_event new ++ (heartbeat (last_sent sent new) ∷ [])) rest

-- `stream_events` past the lookup of the job; `last_event_id` is the header as a number.
unfoldable pub stream_events : ℕ → (ℕ → Look) → Option ℕ → Sent
unfolding gen
stream_events fuel looks none = gen fuel looks 0 0
stream_events fuel looks (some last_event_id) = gen fuel looks 0 last_event_id
