-- ===== src/RenderGraph.antt =====
-- The render graph, webgpu/base/RenderGraph.cpp: what the passes of a frame declare, and compile(),
-- which orders them, drops the dead ones and lets transient resources share memory.
pub mod Access
pub mod Nodes
pub mod Depends
pub mod Sweep
pub mod Topo
pub mod Schedule
pub mod Resources
pub mod Lifetimes
pub mod Alias
pub mod Reads
pub mod PersistentPool
pub mod TransientPool
pub mod Arena
pub mod Checks
pub mod Record
mod Tests
