-- ===== src/RenderGraph/PersistentPool.antt =====
-- PersistentResourcePool of webgpu/base/RenderGraph.cpp: the bookkeeping of the resources that outlive
-- a frame. The WebGPU objects of an entry are left out; `created` tells whether it has them. The free
-- list is left out too: a cell taken from it is reset.
pub mod Defs
pub mod Rotation
pub mod Eviction
