-- ===== src/Orchestrator.antt =====
-- api/orchestrator: plane identity, the residency decision and the single-slot manager.
pub mod Tests
pub mod Workers
pub mod Planes
pub mod Residency
pub mod Manager
