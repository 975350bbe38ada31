-- ===== src/Lib.antt =====
-- Models of Alpenite's core logic, with the theorems that make it correct.
--
-- Parts of the program and the files that model them:
--
-- * The render graph, webgpu/base/RenderGraph.cpp, RenderGraph_internal.h and RenderGraph.h. A frame
--   declares passes with the accesses they make to resources, and compile() turns them into a schedule.
--   - RenderGraph/Access: AccessType, ResourceAccess and what they mean (access_semantics,
--     access_defines, ranges_overlap, aspects_overlap, in_pass_accesses_conflict).
--   - RenderGraph/Nodes, RenderGraph/Resources: PassNode, ResourceNode, TexSignature.
--   - RenderGraph/Record: use() and the functions of PassBuilder, each from a pass to the pass with the
--     accesses it declares. A failed Q_ASSERT ends a build with assertions, and is `none`.
--   - RenderGraph/Sweep: phase 1 of compile_impl, sweep_resource_versions. Each pass gets an adjacency
--     list of the earlier passes it must follow.
--   - RenderGraph/Topo: phase 2, topo_visit and the choice of its roots.
--   - RenderGraph/Schedule: phases 1 and 2 together.
--   - RenderGraph/Lifetimes: phase 3, the walk over the accesses of the scheduled passes.
--   - RenderGraph/Alias: phase 4, the slots that transient resources share.
--   - RenderGraph/Reads: the check of reads before writes that follows phase 2.
--   - RenderGraph/PersistentPool: PersistentResourcePool, without its WebGPU objects.
--   - RenderGraph/TransientPool: TransientResourcePool, with the device as a parameter.
--   - RenderGraph/Checks: what compile() checks of the declared accesses. Ranges: the expansion of the
--     counts and validate_access_ranges; Views: validate_cube_views; Attachments, Declared,
--     Shapes and Targets: validate_render_passes. The table byId and the resolved sizes are functions
--     of a resource id.
--   - RenderGraph/Arena: Arena, with the answers of malloc as an argument of each operation that may
--     call it. Run holds the operations between a mark and the rewind to it, and Oom is about the
--     allocations that end the program.
--   - RenderGraph/Depends: dependence of passes, the closure of the adjacency lists.
--   A pass is named by its index and a resource by its id; what compile() writes into a node is a
--   function of these. Intrusive lists are lists in their order.
--
-- * The tile pipeline, nucleus/tile. The scheduler asks for quads of tiles; limiters and the assembler
--   stand between it and the network.
--   - Tile/Types: types.h (NetworkInfo::join, Data, DataQuad).
--   - Tile/SlotLimiter: SlotLimiter.cpp. A slot of the class is a function from a state and an argument
--     to the new state and the signals it emits.
--   - Tile/RateLimiter: RateLimiter.cpp, with the time as an argument and the timer as a result.
--   - Tile/QuadAssembler: QuadAssembler.cpp, the assembly of four tiles into a quad.
--   - Tile/Cache: Cache.h, the map of tiles in memory and its copy on disk. Disk models write_to_disk and
--     read_from_disk over a directory of files by their names (tile_path). Codec stands for the
--     serialisation library zpp_bits. What a file holds after it was opened for writing and given bytes
--     is a parameter, so that a write may be short. Purge models purge, with std::nth_element as a
--     parameter, and Visit models visit, whose fuel is the number of levels of the tiles in memory.
--   - Tile/Ids: what the code uses of radix/tile.h, a submodule.
--
-- Prelude holds the helpers that all parts share.
--
-- Bounds and fuel: the search of phase 2 runs on fuel, a round for each pass and for each entry of an
-- adjacency list; the fuel is shown to be enough. The sum of a base and a count in ranges_overlap wraps
-- at 32 bits. The sums of sizes in the arena, the ends of byte ranges, the clocks and counters of
-- the pools, the times of the rate limiter and the stamps of the cache wrap at 64 bits.
-- The other numbers of the modelled code are counts and indices that it does not let wrap, and they
-- are unbounded here.
--
-- Not modelled: the calls of WebGPU and Qt, error texts, clear values, float scale factors. Of the
-- render graph: the creation of resources, the resolution of relative sizes, phase 0 of compile(),
-- the interning of names, realize() and execute(). Of the tile pipeline: the scheduler itself and
-- what draws its tiles. The cameras, engines and applications are geometry, GPU calls and user
-- interface.
pub mod Prelude
pub mod RenderGraph
pub mod Tile
