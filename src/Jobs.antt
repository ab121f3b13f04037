-- ===== src/Jobs.antt =====
-- api/jobs: the job record and its lifecycle, the store, the event log and the runner.
pub mod Tests
pub mod Model
pub mod Events
pub mod Store
pub mod Framing
pub mod Runner
