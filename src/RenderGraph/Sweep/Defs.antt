-- ===== src/RenderGraph/Sweep/Defs.antt =====
-- The sweep as the code makes it.
use alpenite.Prelude.{ℕ, Option, none, some, List, [], ◌∷◌, ◌==◌, if◌then◌else◌, update}
use alpenite.RenderGraph.Access.{ResourceAccess, access_is_write}
use alpenite.RenderGraph.Nodes.{PassNode}

-- The arrays of the sweep: by resource the pass that wrote its current version and the passes that
-- read it, newest first; by pass the last dependent linked to it, and its adjacency list.
pub record Sweep : Type 0 where
  pub current_producer : ℕ → Option ℕ
  pub pending_readers : ℕ → List ℕ
  pub linked_by : ℕ → ℕ
  pub adjacency : ℕ → List ℕ

-- The lambda `emit_edge`, with `add_dependency`: at most one edge from a dependent to a pass.
unfoldable pub emit_edge : ℕ → ℕ → Sweep → Sweep
emit_edge dependent dep s = if s.linked_by dep == dependent then s else record s {
  linked_by = update s.linked_by dep dependent;
  adjacency = update s.adjacency dependent (dep ∷ s.adjacency dependent);
}

-- An edge unless the two passes are one.
unfoldable pub emit_edge_unless_self : ℕ → ℕ → Sweep → Sweep
unfolding emit_edge
emit_edge_unless_self p dep s = if dep == p then s else emit_edge p dep s

unfoldable pub emit_edges : ℕ → List ℕ → Sweep → Sweep
unfolding emit_edge_unless_self
emit_edges p [] s = s
emit_edges p (r ∷ readers) s = emit_edges p readers (emit_edge_unless_self p r s)

-- WAW, or RAW: an edge to the producer of the version that the access meets.
unfoldable pub emit_producer : ℕ → Option ℕ → Sweep → Sweep
unfolding emit_edge_unless_self
emit_producer p none s = s
emit_producer p (some w) s = emit_edge_unless_self p w s

unfoldable pub sweep_write : ℕ → ℕ → Sweep → Sweep
unfolding emit_producer emit_edges
sweep_write p id s =
    let waw = emit_producer p (s.current_producer id) s in
    let war = emit_edges p (waw.pending_readers id) waw in
    record war {
      current_producer = update war.current_producer id (some p);
      pending_readers = update war.pending_readers id [];
    }

unfoldable pub sweep_read : ℕ → ℕ → Sweep → Sweep
unfolding emit_producer
sweep_read p id s =
    let raw = emit_producer p (s.current_producer id) s in
    record raw { pending_readers = update raw.pending_readers id (p ∷ raw.pending_readers id) }

unfoldable pub sweep_access : ℕ → ResourceAccess → Sweep → Sweep
unfolding sweep_write sweep_read access_is_write
sweep_access p a s =
    if a.handle.id == 0
    then s
    else if access_is_write a.type
    then sweep_write p a.handle.id s
    else sweep_read p a.handle.id s

unfoldable pub sweep_accesses : ℕ → List ResourceAccess → Sweep → Sweep
unfolding sweep_access
sweep_accesses p [] s = s
sweep_accesses p (a ∷ accesses) s = sweep_accesses p accesses (sweep_access p a s)

unfoldable pub sweep_pass : PassNode → Sweep → Sweep
unfolding sweep_accesses
sweep_pass p s = if p.skip_init then s else sweep_accesses p.index p.accesses s

unfoldable pub sweep_passes : List PassNode → Sweep → Sweep
unfolding sweep_pass
sweep_passes [] s = s
sweep_passes (p ∷ passes) s = sweep_passes passes (sweep_pass p s)

-- The arrays come zeroed from the arena.
unfoldable pub start : Sweep
start = record {
  current_producer = λ _. none;
  pending_readers = λ _. [];
  linked_by = λ _. 0;
  adjacency = λ _. [];
}

-- The adjacency lists after the sweep.
unfoldable pub sweep_resource_versions : List PassNode → ℕ → List ℕ
unfolding sweep_passes start
sweep_resource_versions passes = (sweep_passes passes start).adjacency
