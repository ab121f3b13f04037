-- ===== src/App.antt =====
-- api/app: the edge of the server, where a request is checked and an error gets its status.
pub mod Numbers
pub mod Errors
pub mod Submission
pub mod Stream
pub mod Reasoning
pub mod Label
pub mod Tests
