-- ===== src/Tile/QuadAssembler.antt =====
-- nucleus/tile/QuadAssembler.h and .cpp: asks for the four children of a quad and passes the quad on
-- when the data of all of them has come. The ids are those of radix; a hash map is an association
-- list. A call returns the new state and what it emits: the ids of `tile_requested`, or the quad of
-- `quad_loaded`.
pub mod Defs
pub mod Laws
pub mod Load
