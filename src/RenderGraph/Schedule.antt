-- ===== src/RenderGraph/Schedule.antt =====
-- Phases 1 and 2 of compile() together, webgpu/base/RenderGraph.cpp: the sweep makes the dependencies
-- and the search over them makes the schedule, the order in which the passes that are left run.
use alpenite.Prelude.{
  ℕ, suc, ◌+◌, ◌≤◌, ◌<◌, ◌≡◌, refl, ◌≢◌, Bool, false, Option, some, List, [], ◌∷◌, ◌++◌, sym, ◌∙◌,
  ap, subst, length, arith, All, update, ◌||◌, some-injective, append-nil, append_assoc,
}
use alpenite.RenderGraph.Access.{ResourceAccess}
use alpenite.RenderGraph.Nodes.{PassNode}
use alpenite.RenderGraph.Resources.{ResourceNode}
use alpenite.RenderGraph.Depends.{Has, DependsOn, self, via}
use alpenite.RenderGraph.Sweep.Defs.{sweep_resource_versions}
use alpenite.RenderGraph.Sweep.Order.{IsNumbered, IsNumbered-append, sweep-IsBackward}
use alpenite.RenderGraph.Sweep.Conflicts.{IsConflict, Uses, conflict-DependsOn}
use alpenite.RenderGraph.Topo.Defs.{Dfs, topo_sort}
use alpenite.RenderGraph.Topo.Frames.{IsSorted}
use alpenite.RenderGraph.Topo.Order.{IsTopoOrder, IsRoot, IsSorted-DependsOn, topo_sort_lem}

-- `sinkRoot`: the resources whose value must survive the frame.
unfoldable pub sink_roots : List ResourceNode → (ℕ → Bool) → ℕ → Bool
sink_roots [] sink = sink
sink_roots (r ∷ resources) sink =
    sink_roots resources (update sink r.handle.id (r.imported || r.history))

-- The dependencies of the recorded passes, then the order of the passes that feed a root.
unfoldable pub schedule : List ResourceNode → List PassNode → Option Dfs
unfolding topo_sort sweep_resource_versions sink_roots
schedule resources passes =
    topo_sort (length passes) (sweep_resource_versions passes) (sink_roots resources (λ _. false))
      passes

module _ (adjacency : ℕ → List ℕ) where
  IsSorted-split :
      (seen xs : List ℕ) (q : ℕ) (ys : List ℕ)
      → IsSorted adjacency seen (xs ++ q ∷ ys)
      → IsSorted adjacency seen xs × ((d : ℕ) → Has (adjacency q) d → Has (seen ++ xs) d)
  IsSorted-split seen [] q ys h =
      (tt, λ d e. subst (λ l. Has l d) (sym (append-nil seen)) (h.0 d e))
  IsSorted-split seen (x ∷ xs) q ys (h, hs) =
      let (before, all) = IsSorted-split (seen ++ x ∷ []) xs q ys hs in
      ((h, before), λ d e. subst (λ l. Has l d) (append_assoc seen (x ∷ []) xs) (all d e))

  -- All that a pass in the order depends on, but itself, stands before it.
  precedes :
      (xs : List ℕ) (p q : ℕ) (ys : List ℕ)
      → IsSorted adjacency [] (xs ++ q ∷ ys)
      → q ≢ p
      → DependsOn adjacency q p
      → Has xs p
  precedes xs p q ys h ne (self _) = absurd (ne refl)
  precedes xs p q ys h ne (via {q = r} e d) =
      let (before, all) = IsSorted-split [] xs q ys h in
      IsSorted-DependsOn adjacency xs before (all r e) d

numbered-lt :
    (n bound : ℕ) (passes : List PassNode)
    → IsNumbered n passes
    → n + length passes ≤ bound
    → All (λ p. p.index < bound) passes
numbered-lt n bound [] h le = tt
numbered-lt n bound (p ∷ passes) (e, h) le =
    (omega arith, numbered-lt (suc n) bound passes h (omega arith))

later_index :
    (n : ℕ) (passes : List PassNode) (q : PassNode) (post : List PassNode)
    → IsNumbered n (passes ++ q ∷ post)
    → n + length passes ≡ q.index
later_index n passes q post h = sym (IsNumbered-append n passes (q ∷ post) h).1.0

distinct_indices :
    (pre mid post : List PassNode) (p q : PassNode)
    → IsNumbered 0 (pre ++ p ∷ (mid ++ q ∷ post))
    → q.index ≢ p.index
distinct_indices pre mid post p q h e =
    let (first, rest) = (IsNumbered-append 0 pre (p ∷ (mid ++ q ∷ post)) h).1 in
    omega (arith, later_index (suc (0 + length pre)) mid q post rest)

-- For every recording whose passes are numbered in their order, the search has fuel enough: it ends without a cycle, and the schedule holds exactly the passes that some root depends on, each once and after all that its adjacency list names.
pub schedule_lem :
    (resources : List ResourceNode) (passes : List PassNode)
    → IsNumbered 0 passes
    → (t : Dfs) × (schedule resources passes ≡ some t)
      × IsTopoOrder
          (sweep_resource_versions passes)
          (IsRoot (sink_roots resources (λ _. false)) passes)
          t
unfolding schedule
schedule_lem resources passes h =
    topo_sort_lem (length passes) (sweep_resource_versions passes)
      (sink_roots resources (λ _. false)) passes (sweep-IsBackward passes h)
      (numbered-lt 0 (length passes) passes h (omega arith))

-- Let two passes that run make conflicting accesses (of one resource, one of them a write), and let the later of them stand in the schedule. Then the other pass stands in the schedule too, before it: a hazard keeps the order of the declarations, and a pass that feeds a live pass is not dropped.
pub schedule-conflict :
    (resources : List ResourceNode) (pre mid post : List PassNode) (p q : PassNode)
    (a b : ResourceAccess) (t : Dfs) (before after : List ℕ)
    → IsNumbered 0 (pre ++ p ∷ (mid ++ q ∷ post))
    → Uses p a
    → Uses q b
    → IsConflict a b
    → schedule resources (pre ++ p ∷ (mid ++ q ∷ post)) ≡ some t
    → t.order ≡ before ++ q.index ∷ after
    → Has before p.index
schedule-conflict resources pre mid post p q a b t before after numbered u w c run split =
    let passes = pre ++ p ∷ (mid ++ q ∷ post) in
    let (t', run', order) = schedule_lem resources passes numbered in
    let same : t' ≡ t = some-injective t' t (sym run' ∙ run) in
    let sorted =
      subst (IsSorted (sweep_resource_versions passes) []) (ap (λ (s : Dfs). s.order) same ∙ split)
        order.sorted in
    precedes (sweep_resource_versions passes) before p.index q.index after sorted
      (distinct_indices pre mid post p q numbered)
      (conflict-DependsOn pre mid post p q a b numbered u w c)
