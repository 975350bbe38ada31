-- ===== src/RenderGraph/Reads.antt =====
-- The check of compile(), webgpu/base/RenderGraph.cpp, that follows culling: a pass must not read a
-- transient resource that no earlier access wrote, and must not write an older layer of a history.
pub mod Defs
pub mod Sound
