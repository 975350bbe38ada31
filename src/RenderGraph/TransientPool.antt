-- ===== src/RenderGraph/TransientPool.antt =====
-- TransientResourcePool of webgpu/base/RenderGraph.cpp: the objects of transient resources, which are
-- handed out anew in each frame. The device is a parameter: `fresh` is the object that it makes when a
-- call needs one. The debug log and the free list, whose cells are reset, are left out.
pub mod Defs
pub mod Claims
pub mod Exclusive
