-- ===== src/RenderGraph/Sweep.antt =====
-- Phase 1 of compile(): one sweep over the passes in declaration order that makes a pass depend on
-- the earlier passes whose accesses it must follow. A pass is its index, and the adjacency list of
-- each pass, newest first, is a function of the index.
pub mod Defs
mod State
mod Steps
mod Hazards
pub mod Order
pub mod Conflicts
pub use Defs.{Sweep}
unfoldable pub use Defs.{
  emit_edge, emit_edges, sweep_write, sweep_read, sweep_access, sweep_accesses, sweep_pass,
  sweep_passes, start, sweep_resource_versions,
}
