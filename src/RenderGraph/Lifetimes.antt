-- ===== src/RenderGraph/Lifetimes.antt =====
-- Phase 3 of compile(), webgpu/base/RenderGraph.cpp: one walk over the accesses of the passes that
-- are left, in the order in which they run, that gathers for each resource its usage flags and the
-- first and last pass that touch it.
pub mod Defs
pub mod Touch
pub mod Cover
pub use Defs.{Life}
unfoldable pub use Defs.{
  no_life, extend_life, add_usage, touch, gather_access, gather_accesses, gather_passes, lifetimes,
}
