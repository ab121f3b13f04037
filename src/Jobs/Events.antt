-- ===== src/Jobs/Events.antt =====
-- api/jobs/events.py: one job's event log and the replay after `Last-Event-ID`.
pub mod Replay
use cosmos3_nano_web_ui.Common.{ℕ, String, Option, none, some, List, ltb, select}
use cosmos3_nano_web_ui.Common.Value.{Fields}

pub record JobEvent : Type 0 where
  pub id : ℕ
  pub type : String
  pub payload : Fields

-- `PROGRESS` and `HEARTBEAT`.
abbrev pub progress_type : String
progress_type = "progress"

abbrev pub heartbeat_type : String
heartbeat_type = "heartbeat"

unfoldable pub events_since : List JobEvent → Option ℕ → List JobEvent
events_since log none = log
events_since log (some last_event_id) = select (λ event. ltb last_event_id event.id) log
