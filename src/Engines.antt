-- ===== src/Engines.antt =====
-- api/engines: the pure checks of the reasoning engine.
pub mod Omni
pub mod ContextCap
pub mod CoResidency
pub mod Preflight
pub mod Tests
