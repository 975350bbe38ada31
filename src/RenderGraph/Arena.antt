-- ===== src/RenderGraph/Arena.antt =====
-- The arena behind the storage of a graph, Arena of RenderGraph.cpp: a chain of blocks with a bump
-- cursor each, which is emptied as a whole or back to a mark.
pub mod Defs
pub mod Layout
pub mod Bump
pub mod Alloc
pub mod Oom
pub mod Run
pub mod Rewind
pub mod Regions
pub mod Exclusive
mod Tests
