-- ===== src/RenderGraph/Checks.antt =====
-- The checks of compile() on the declared accesses, in RenderGraph.cpp: the handles, the ranges of
-- subresources and bytes, the cube views and the attachments of render passes.
pub mod Ranges
pub mod Views
pub mod Attachments
pub mod Shapes
pub mod Declared
pub mod Targets
mod Tests
