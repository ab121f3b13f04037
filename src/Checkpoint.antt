-- ===== src/Checkpoint.antt =====
-- The checkpoint tools of tools/checkpoint_prep: the header of a safetensors file, the planned
-- change of the FP8 checkpoint, its rewrite, its sidecars, the probe, and the plan of the copy.
pub mod Bytes
pub mod Mutation
pub mod Rewrite
pub mod Sidecars
pub mod Probe
pub mod Copy
pub mod Tests
