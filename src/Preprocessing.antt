-- ===== src/Preprocessing.antt =====
-- api/preprocessing: the checks of what a request supplies, before it reaches an engine.
pub mod Limits
pub mod Media
pub mod Header
pub mod Action
pub mod Paths
pub mod Tests
