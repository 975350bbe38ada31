-- ===== src/RenderGraph/Topo/Order.antt =====
-- The order that the search leaves: the passes that feed a root and no others, once each, and each
-- after all that it depends on.
use alpenite.Prelude.{
  ℕ, ◌<◌, ◌≡◌, refl, ◌↔◌, ◌⊎◌, inl, inr, Bool, true, false, some, List, [], ◌∷◌, ◌++◌, sym, ap,
  subst, All, Bool-cases, ℕ_discrete, IsDistinct, contains-append_left, append_assoc,
}
use alpenite.RenderGraph.Nodes.{PassNode}
use alpenite.RenderGraph.Depends.{
  Has, DependsOn, self, via, IsBackward, not-Has-nil, Has-cons_self, Has-cons_cases,
}
use alpenite.RenderGraph.Topo.Defs.{
  Dfs, init, push, topo_visit, topo_roots, topo_sort, work, is_root,
}
use alpenite.RenderGraph.Topo.Frames.{nodes, IsSorted, Feeds, Seen, Inv}
use alpenite.RenderGraph.Topo.Steps.{push-Inv}
use alpenite.RenderGraph.Topo.Fuel.{Ended, push-measure, topo_loop-Ended, met_of_empty}

module _ (adjacency : ℕ → List ℕ) where
  IsSorted-closed :
      (seen xs : List ℕ) (v d : ℕ)
      → IsSorted adjacency seen xs
      → Has xs v
      → Has (adjacency v) d
      → Has (seen ++ xs) d
  IsSorted-closed seen [] v d h k e = absurd (not-Has-nil v k)
  IsSorted-closed seen (x ∷ xs) v d (h, hs) k e = elim (Has-cons_cases x v xs k) [
    | inl same ↦
        contains-append_left ℕ_discrete seen (x ∷ xs) d
          (h d (subst (λ y. Has (adjacency y) d) (sym same) e))
    | inr deep ↦
        subst (λ l. Has l d) (append_assoc seen (x ∷ []) xs)
          (IsSorted-closed (seen ++ x ∷ []) xs v d hs deep e)
  ]

  -- What a pass in the order depends on is in the order.
  pub IsSorted-DependsOn :
      (xs : List ℕ) {v d : ℕ}
      → IsSorted adjacency [] xs
      → Has xs v
      → DependsOn adjacency v d
      → Has xs d
  IsSorted-DependsOn xs h k (self p) = k
  IsSorted-DependsOn xs h k (via {p} {q} e d) =
      IsSorted-DependsOn xs h (IsSorted-closed [] xs p q h k e) d

-- Is `v` a pass of the list that runs, and that writes a resource whose value must survive the frame
-- or is kept by force?
unfoldable pub IsRoot : (ℕ → Bool) → List PassNode → ℕ → Type 0
IsRoot sink_root [] v = ⊥
IsRoot sink_root (p ∷ passes) v =
    ((p.index ≡ v) × (is_root sink_root p ≡ true)) ⊎ IsRoot sink_root passes v

module _ (adjacency : ℕ → List ℕ) (Root : ℕ → Type 0) (n : ℕ) (back : IsBackward adjacency) where
  -- A visit to a root from a state between two visits.
  visit-Ended :
      (root : ℕ) (s : Dfs)
      → Root root
      → root < n
      → s.stack ≡ []
      → Inv adjacency Root n s
      → (t : Dfs) × (topo_visit (work n adjacency (λ _. false)) adjacency root s ≡ some t)
        × Ended adjacency Root n back s t
        × Has t.order root
  unfolding topo_visit
  visit-Ended root s isroot lt e v =
      let all : (u : ℕ) → Seen s u → Has s.order u = met_of_empty adjacency Root n back s e in
      elim (Bool-cases (s.on_stack root)) [
        | inl up ↦ absurd (not-Has-nil root (subst (λ l. Has (nodes l) root) e (v.stacked root up)))
        | inr off ↦ elim (Bool-cases (s.placed root)) [
          | inl old ↦ (
            s,
            rw (off, old),
            record { inv = v; empty = e; met = all },
            all root (v.placed_seen root old),
          )
          | inr new ↦
              let s' : Dfs = push adjacency root [] s in
              let v' : Inv adjacency Root n s' =
                push-Inv adjacency Root n back s root [] v new (sym (ap nodes e)) tt
                  (root, isroot, self root) lt in
              let (t, run, ended) =
                topo_loop-Ended adjacency Root n back (work n adjacency (λ _. false)) s'
                  (push-measure adjacency Root n back root s lt new) v' in
              (
                t,
                rw (off, new) run,
                record {
                  inv = ended.inv;
                  empty = ended.empty;
                  met = λ u h. ended.met u (inl (all u h));
                },
                ended.met root (inr (Has-cons_self root [])),
              )
        ]
      ]

  -- The visits to the roots among some passes.
  topo_roots-Ended :
      (sink_root : ℕ → Bool) (passes : List PassNode) (s : Dfs)
      → ((v : ℕ) → IsRoot sink_root passes v → Root v)
      → All (λ p. p.index < n) passes
      → s.stack ≡ []
      → Inv adjacency Root n s
      → (t : Dfs) × (topo_roots (work n adjacency (λ _. false)) adjacency sink_root passes (some s)
          ≡ some t)
        × Ended adjacency Root n back s t
        × ((v : ℕ) → IsRoot sink_root passes v → Has t.order v)
  unfolding topo_roots IsRoot
  topo_roots-Ended sink_root [] s roots small e v = (
    s,
    refl,
    record { inv = v; empty = e; met = met_of_empty adjacency Root n back s e },
    λ v r. absurd r,
  )
  topo_roots-Ended sink_root (p ∷ passes) s roots (lt, small) e v =
      elim (Bool-cases (is_root sink_root p)) [
        | inl is ↦
            let (t, run, ended, has) =
              visit-Ended p.index s (roots p.index (inl (refl, is))) lt e v in
            let (u, runs, end, all) =
              topo_roots-Ended sink_root passes t (λ v r. roots v (inr r)) small ended.empty
                ended.inv in
            (
              u,
              rw (is, run) runs,
              record {
                inv = end.inv;
                empty = end.empty;
                met = λ w h. end.met w (inl (ended.met w h));
              },
              λ w r. elim r [
                | inl (same, _) ↦ subst (Has u.order) same (end.met p.index (inl has))
                | inr later ↦ all w later
              ],
            )
        | inr isnt ↦
            let (u, runs, end, all) =
              topo_roots-Ended sink_root passes s (λ v r. roots v (inr r)) small e v in
            (
              u,
              rw isnt runs,
              end,
              λ w r. elim r [ inl (_, is) ↦ absurd (cc) | inr later ↦ all w later ],
            )
      ]

init-Inv : (adjacency : ℕ → List ℕ) (Root : ℕ → Type 0) (n : ℕ) → Inv adjacency Root n init
unfolding init
init-Inv adjacency Root n = record {
  frames = tt;
  placed_seen = λ v h. absurd (cc);
  seen_placed = λ v h. absurd (elim h [ inl x ↦ not-Has-nil v x | inr x ↦ not-Has-nil v x ]);
  stacked = λ v h. absurd (cc);
  sorted = tt;
  distinct = tt;
  acyclic = refl;
  feeds = λ v h. absurd (elim h [ inl x ↦ not-Has-nil v x | inr x ↦ not-Has-nil v x ]);
  below = λ v h. absurd (elim h [ inl x ↦ not-Has-nil v x | inr x ↦ not-Has-nil v x ]);
}

-- The order of the search: no cycle is reported; each pass stands once, after all that its adjacency list names; and the passes in it are those that a root depends on.
pub record IsTopoOrder (adjacency : ℕ → List ℕ) (Root : ℕ → Type 0) (t : Dfs) : Type 0 where
  pub acyclic : t.had_cycle ≡ false
  pub distinct : IsDistinct ℕ_discrete t.order
  pub sorted : IsSorted adjacency [] t.order
  pub exact : (v : ℕ) → Has t.order v ↔ Feeds adjacency Root 0 v

-- Let the dependencies go backward and the passes be numbered below `n`. Then the fuel is enough: the search ends without a cycle, each pass in its order stands there once and after all that its adjacency list names, and the passes in the order are those that a root depends on.
pub topo_sort_lem :
    (n : ℕ) (adjacency : ℕ → List ℕ) (sink_root : ℕ → Bool) (passes : List PassNode)
    → IsBackward adjacency
    → All (λ p. p.index < n) passes
    → (t : Dfs) × (topo_sort n adjacency sink_root passes ≡ some t)
      × IsTopoOrder adjacency (IsRoot sink_root passes) t
unfolding topo_sort init
topo_sort_lem n adjacency sink_root passes back small =
    let Root = IsRoot sink_root passes in
    let (t, run, end, all) =
      topo_roots-Ended adjacency Root n back sink_root passes init (λ v r. r) small refl
        (init-Inv adjacency Root n) in
    (
      t,
      run,
      record {
        acyclic = end.inv.acyclic;
        distinct = end.inv.distinct;
        sorted = end.inv.sorted;
        exact = λ v. (
          λ h. end.inv.feeds v (inl h),
          λ f. IsSorted-DependsOn adjacency t.order end.inv.sorted (all f.0 f.1) f.2,
        );
      },
    )
