-- ===== src/RenderGraph/Alias.antt =====
-- Phase 4 of compile(), webgpu/base/RenderGraph.cpp: transient resources of one kind and signature
-- whose lifetimes do not meet share a physical object, a slot.
pub mod Defs
pub mod Slots
mod Place
mod Filter
pub mod Disjoint
