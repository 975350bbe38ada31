-- ===== src/RenderGraph/Topo.antt =====
-- Phase 2 of compile(): the depth first search from the passes whose effects leave the frame. It
-- puts the passes that feed them in an order in which each pass follows all it depends on, and drops
-- the rest.
pub mod Defs
pub mod Frames
mod Steps
mod Rounds
mod Fuel
pub mod Order
pub use Defs.{Dfs}
unfoldable pub use Defs.{topo_step, topo_loop, topo_visit, topo_sort, work, is_sink, is_root, init}
