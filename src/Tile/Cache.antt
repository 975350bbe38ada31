-- ===== src/Tile/Cache.antt =====
-- The cache of tiles, nucleus/tile/Cache.h: the tiles in memory, and their copies on disk.
pub mod Defs
pub mod Disk
pub mod Paths
pub mod Files
pub mod Reload
pub mod RoundTrip
pub mod Insert
pub mod Visit
pub mod Purge
pub mod Latest
mod Tests
