-- ===== src/RenderGraph/Arena/Tests.antt =====
-- An arena with a block that holds one allocation, and a second allocation from it.
use alpenite.Prelude.{
  ℕ, ◌≡◌, ◌↔◌, refl, arith, Option, none, some, List, [], ◌∷◌, All, leb, if◌then◌else◌,
}
use alpenite.RenderGraph.Arena.Defs.{Arena, Chain, alloc_raw, mark, rewind}
use alpenite.RenderGraph.Arena.Layout.{IsValid}
use alpenite.RenderGraph.Arena.Bump.{IsAddressed, IsServed}
use alpenite.RenderGraph.Arena.Alloc.{alloc_raw-IsValid}
use alpenite.RenderGraph.Arena.Oom.{NeedsBlock, request, alloc_raw-oom}
use alpenite.RenderGraph.Arena.Run.{Run, stay, alloc}
use alpenite.RenderGraph.Arena.Rewind.{IsRestored, rewind-mark}
use alpenite.RenderGraph.Arena.Regions.{Region, IsApart, region, spaces, IsExclusive}
use alpenite.RenderGraph.Arena.Exclusive.{IsExclusiveArena, IsApartMalloc, alloc_raw-exclusive}

abbrev malloc_at : ℕ → ℕ → Option ℕ
malloc_at address n = if leb n 100000 then some address else none

abbrev no_arena : Arena
no_arena = record {
  chain = none;
  block_size = 16384;
  total_capacity = 0;
  peak_usage = 0;
  block_count = 0;
  live_bytes = 0;
}

abbrev chain_of : ℕ → Chain
chain_of used = record {
  before = [];
  current = record { address = 1000; payload = 1040; capacity = 16384; used = used };
  next = [];
}

abbrev arena_of : ℕ → Arena
arena_of used = record {
  chain = some (chain_of used);
  block_size = 16384;
  total_capacity = 16384;
  peak_usage = used;
  block_count = 1;
  live_bytes = used;
}

first_alloc : alloc_raw (malloc_at 1000) no_arena 100 8 ≡ some (arena_of 100, 1040)
unfolding alloc_raw
first_alloc = refl

second_alloc : alloc_raw (malloc_at 500000) (arena_of 100) 50 16 ≡ some (arena_of 162, 1152)
unfolding alloc_raw
second_alloc = refl

arena-IsValid : IsValid (arena_of 100)
arena-IsValid = record {
  laid = record {
    before = tt;
    current = record { within = omega arith; addressed = omega arith; aligned = refl };
    next = tt;
    clean = tt;
    counted = refl;
  };
  peaked = omega arith;
}

malloc-IsAddressed : IsAddressed (malloc_at 500000)
malloc-IsAddressed n address h = ground arith

alloc_raw-IsValid_example : IsServed 50 16 (arena_of 162, 1152)
alloc_raw-IsValid_example =
    alloc_raw-IsValid (malloc_at 500000) (arena_of 100) 50 16 {r = (arena_of 162, 1152)}
      malloc-IsAddressed (omega arith) (omega arith) refl arena-IsValid second_alloc

second-Run : Run (arena_of 100) (arena_of 162)
second-Run =
    alloc (malloc_at 500000) (arena_of 100) 50 16 (arena_of 162, 1152) stay malloc-IsAddressed
      (omega arith) (omega arith) refl second_alloc

rewind-mark_example : IsRestored 100 (chain_of 100) (rewind (arena_of 162) (mark (arena_of 100)))
rewind-mark_example =
    rewind-mark (arena_of 100) (chain_of 100) {t = arena_of 162} refl arena-IsValid tt second-Run
      (omega arith)

abbrev live_region : List Region
live_region = record { first = 1040; last = 1140 } ∷ []

malloc_apart :
    IsApartMalloc (malloc_at 500000) live_region (record { first = 1140; last = 17424 } ∷ [])
unfolding region
malloc_apart n address h = ground arith

arena-IsExclusive : IsExclusive (chain_of 100) live_region
unfolding spaces
arena-IsExclusive = record { reserved = ground arith; disjoint = ground arith }

alloc_raw-exclusive_example :
    All (IsApart (region 1152 50)) live_region
    × IsExclusiveArena (some (chain_of 162)) (region 1152 50 ∷ live_region)
unfolding spaces
alloc_raw-exclusive_example =
    alloc_raw-exclusive (malloc_at 500000) (arena_of 100) 50 16 live_region
      {r = (arena_of 162, 1152)} malloc-IsAddressed (omega arith) (omega arith) arena-IsValid
      malloc_apart arena-IsExclusive second_alloc

-- This malloc has memory for the blocks of the arena, and none for one of 200000 bytes.
alloc_raw-oom_example : (alloc_raw (malloc_at 500000) (arena_of 100) 200000 8 ≡ none) ↔ (
    NeedsBlock (some (chain_of 100)) 200000 8
    × (malloc_at 500000 (request (arena_of 100) 200008) ≡ none))
alloc_raw-oom_example =
    alloc_raw-oom (malloc_at 500000) (arena_of 100) 200000 8 malloc-IsAddressed (omega arith)
      (omega arith) arena-IsValid

refused : alloc_raw (malloc_at 500000) (arena_of 100) 200000 8 ≡ none
unfolding alloc_raw
refused = refl
