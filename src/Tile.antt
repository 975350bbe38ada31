-- ===== src/Tile.antt =====
-- The tile subsystem, nucleus/tile: the shared types, the limiters between the scheduler and the
-- network, the quad assembler, the caches and the scheduler.
pub mod Ids
pub mod Types
pub mod SlotLimiter
pub mod RateLimiter
pub mod QuadAssembler
pub mod Cache
mod Tests
