-- ===== src/RenderGraph/Topo/Defs.antt =====
-- The search as the code makes it. The explicit stack holds, top first, a pass and the part of its
-- adjacency list that is still to be visited. `none` means that the fuel ran out.
use alpenite.Prelude.{
  ℕ, zero, suc, ◌+◌, Bool, true, false, not, ◌&&◌, ◌||◌, Option, none, some, List, [], ◌∷◌, ◌++◌,
  length, update, if◌then◌else◌,
}
use alpenite.RenderGraph.Access.{ResourceAccess, access_is_write}
use alpenite.RenderGraph.Nodes.{PassNode}

pub record Dfs : Type 0 where
  pub placed : ℕ → Bool
  pub on_stack : ℕ → Bool
  pub order : List ℕ
  pub had_cycle : Bool
  pub stack : List (ℕ × List ℕ)

unfoldable pub init : Dfs
init = record {
  placed = λ _. false;
  on_stack = λ _. false;
  order = [];
  had_cycle = false;
  stack = [];
}

-- `placed = onStack = true`, and a new frame.
unfoldable pub push : (ℕ → List ℕ) → ℕ → List (ℕ × List ℕ) → Dfs → Dfs
push adjacency v below s = record s {
  placed = update s.placed v true;
  on_stack = update s.on_stack v true;
  stack = (v, adjacency v) ∷ below;
}

-- The body of `while (depth)`.
unfoldable pub topo_step : (ℕ → List ℕ) → List (ℕ × List ℕ) → Dfs → Dfs
unfolding push
topo_step adjacency [] s = s
topo_step adjacency ((v, child ∷ rest) ∷ below) s =
    if s.on_stack child
    then record s { had_cycle = true; stack = (v, rest) ∷ below }
    else if s.placed child
    then record s { stack = (v, rest) ∷ below }
    else push adjacency child ((v, rest) ∷ below) s
topo_step adjacency ((v, []) ∷ below) s = record s {
  on_stack = update s.on_stack v false;
  order = s.order ++ v ∷ [];
  stack = below;
}

unfoldable pub topo_loop : ℕ → (ℕ → List ℕ) → Dfs → Option Dfs
unfolding topo_step
topo_loop zero adjacency s = elim s.stack [ [] ↦ some s | f ∷ below ↦ none ]
topo_loop (suc fuel) adjacency s = elim s.stack [
  | [] ↦ some s
  | f ∷ below ↦ topo_loop fuel adjacency (topo_step adjacency (f ∷ below) s)
]

unfoldable pub topo_visit : ℕ → (ℕ → List ℕ) → ℕ → Dfs → Option Dfs
unfolding topo_loop push
topo_visit fuel adjacency root s =
    if s.on_stack root
    then some (record s { had_cycle = true })
    else if s.placed root
    then some s
    else topo_loop fuel adjacency (push adjacency root [] s)

-- What is left to do for the passes below `n` that are not placed: a round for each pass, and one
-- for each entry of its adjacency list.
unfoldable pub work : ℕ → (ℕ → List ℕ) → (ℕ → Bool) → ℕ
work zero adjacency placed = 0
work (suc n) adjacency placed =
    (if placed n then 0 else suc (length (adjacency n))) + work n adjacency placed

-- Does the pass write a resource whose value must survive the frame?
unfoldable pub is_sink : (ℕ → Bool) → List ResourceAccess → Bool
unfolding access_is_write
is_sink sink_root [] = false
is_sink sink_root (a ∷ accesses) =
    (access_is_write a.type && sink_root a.handle.id) || is_sink sink_root accesses

unfoldable pub is_root : (ℕ → Bool) → PassNode → Bool
unfolding is_sink
is_root sink_root p = not p.skip_init && (is_sink sink_root p.accesses || p.force_keep)

unfoldable pub topo_roots : ℕ → (ℕ → List ℕ) → (ℕ → Bool) → List PassNode → Option Dfs → Option Dfs
unfolding is_root topo_visit
topo_roots fuel adjacency sink_root [] s = s
topo_roots fuel adjacency sink_root (p ∷ passes) none = none
topo_roots fuel adjacency sink_root (p ∷ passes) (some s) =
    topo_roots fuel adjacency sink_root passes
      (if is_root sink_root p then topo_visit fuel adjacency p.index s else some s)

-- The search from every root, with fuel for each round that it can take.
unfoldable pub topo_sort : ℕ → (ℕ → List ℕ) → (ℕ → Bool) → List PassNode → Option Dfs
unfolding topo_roots work init
topo_sort n adjacency sink_root passes =
    topo_roots (work n adjacency (λ _. false)) adjacency sink_root passes (some init)
