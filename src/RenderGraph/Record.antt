-- ===== src/RenderGraph/Record.antt =====
-- The recording of a pass, PassBuilder of RenderGraph.cpp: each call declares accesses of the pass.
pub mod Defs
pub mod Calls
pub mod Clean
pub mod Session
pub mod Kept
mod Tests
