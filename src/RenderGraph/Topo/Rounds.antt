-- ===== src/RenderGraph/Topo/Rounds.antt =====
-- The rounds of the loop: a pass is met, skipped or finished, and no cycle is ever found.
use alpenite.Prelude.{
  ℕ, ◌≡◌, ◌≢◌, ◌⊎◌, inl, inr, true, false, List, [], ◌∷◌, ◌++◌, sym, ap, subst, ℕ_discrete, arith,
  Bool-cases, contains-append_left, contains_self, snoc-IsDistinct,
}
use alpenite.RenderGraph.Depends.{
  Has, self, via, IsBackward, DependsOn-trans, not-Has-nil, Has-cons_self, Has-cons, Has-cons_cases,
  Has-append_cases,
}
use alpenite.RenderGraph.Topo.Defs.{Dfs, topo_step}
use alpenite.RenderGraph.Topo.Frames.{
  nodes, IsSorted-snoc, Frames, Frames-later, Frames-order, Frames-done, Feeds, Seen, Inv,
}
use alpenite.RenderGraph.Topo.Steps.{push-Inv, skip-Inv, unstacked}

module _ (adjacency : ℕ → List ℕ) (Root : ℕ → Type 0) (n : ℕ) (back : IsBackward adjacency) where
  module _ (s : Dfs) (p c : ℕ) (rest : List ℕ) (below : List (ℕ × List ℕ))
      (e : s.stack ≡ (p, c ∷ rest) ∷ below) (v : Inv adjacency Root n s) where
    top : Frames adjacency s.order [] ((p, c ∷ rest) ∷ below)
    top = subst (Frames adjacency s.order []) e v.frames

    pub child-edge : Has (adjacency p) c
    child-edge = top.0.part c (Has-cons_self c rest)

    -- A child of the top pass is an earlier pass than all that are on the stack.
    child-not-deep : ¬ Has (nodes s.stack) c
    child-not-deep up =
        elim (Has-cons_cases p c (nodes below) (subst (λ l. Has (nodes l) c) e up)) [
          | inl same ↦ omega (arith, back p c child-edge)
          | inr deep ↦ omega (
            arith,
            back p c child-edge,
            Frames-later adjacency s.order (p ∷ []) below p top.1 (Has-cons_self p []) c deep,
          )
        ]

    pub child-off : s.on_stack c ≡ false
    child-off = elim (Bool-cases (s.on_stack c)) [
      | inl up ↦ absurd (child-not-deep (v.stacked c up))
      | inr off ↦ off
    ]

    child-done : s.placed c ≡ true → Has s.order c
    child-done old = elim (v.placed_seen c old) [
      | inl done ↦ done
      | inr deep ↦ absurd (child-not-deep deep)
    ]

    pub top-Seen : Seen s p
    top-Seen = inr (subst (λ l. Has (nodes l) p) (sym e) (Has-cons_self p (nodes below)))

    child-Feeds : Feeds adjacency Root n c
    child-Feeds =
        let (r, root, d) = v.feeds p top-Seen in
        (r, root, DependsOn-trans d (via child-edge (self c)))

    child-Frames : Frames adjacency s.order (c ∷ []) ((p, rest) ∷ below)
    child-Frames = (
      record {
        waits = λ d h. elim (top.0.waits d h) [
          | inl here ↦ inl here
          | inr more ↦ elim more [
            | inl left ↦ elim (Has-cons_cases c d rest left) [
              | inl same ↦ inr (inr (subst (Has (c ∷ [])) same (Has-cons_self c [])))
              | inr there ↦ inr (inl there)
            ]
            | inr none ↦ absurd (not-Has-nil d none)
          ]
        ];
        part = λ d h. top.0.part d (Has-cons c d rest h);
        later = λ d h. elim (Has-cons_cases c d [] h) [
          | inl same ↦ omega (arith, back p c child-edge)
          | inr none ↦ absurd (not-Has-nil d none)
        ];
        absent = top.0.absent;
      },
      top.1,
    )

    child-Inv : Inv adjacency Root n (topo_step adjacency ((p, c ∷ rest) ∷ below) s)
    unfolding topo_step
    child-Inv = rw child-off (elim (Bool-cases (s.placed c)) [
      | inl old ↦ rw old (skip-Inv adjacency Root n back s p c rest below e v (child-done old))
      | inr new ↦ rw new (
          push-Inv adjacency Root n back s c ((p, rest) ∷ below) v new (sym (ap nodes e))
            child-Frames child-Feeds (omega (arith, back p c child-edge, v.below p top-Seen)))
    ])

  -- The pass of a frame whose list is empty comes next in the order.
  module _ (s : Dfs) (p : ℕ) (below : List (ℕ × List ℕ)) (e : s.stack ≡ (p, []) ∷ below)
      (v : Inv adjacency Root n s) where
    last : Frames adjacency s.order [] ((p, []) ∷ below)
    last = subst (Frames adjacency s.order []) e v.frames

    pub done-in : (u : ℕ) → Seen s u → Has (s.order ++ p ∷ []) u ⊎ Has (nodes below) u
    done-in u (inl h) = inl (contains-append_left ℕ_discrete s.order (p ∷ []) u h)
    done-in u (inr h) = elim (Has-cons_cases p u (nodes below) (subst (λ l. Has (nodes l) u) e h)) [
      | inl same ↦ inl (subst (Has (s.order ++ p ∷ [])) same (contains_self ℕ_discrete s.order p))
      | inr deep ↦ inr deep
    ]

    done-out : (u : ℕ) → Has (s.order ++ p ∷ []) u ⊎ Has (nodes below) u → Seen s u
    done-out u (inl h) = elim (Has-append_cases s.order p u h) [
      | inl old ↦ inl old
      | inr same ↦ inr (
          subst (λ l. Has (nodes l) u) (sym e)
            (subst (Has (p ∷ nodes below)) same (Has-cons_self p (nodes below))))
    ]
    done-out u (inr h) = inr (subst (λ l. Has (nodes l) u) (sym e) (Has-cons p u (nodes below) h))

    all-done : (d : ℕ) → Has (adjacency p) d → Has s.order d
    all-done d h = elim (last.0.waits d h) [
      | inl here ↦ here
      | inr more ↦ elim more [
        | inl none ↦ absurd (not-Has-nil d none)
        | inr none ↦ absurd (not-Has-nil d none)
      ]
    ]

    last-ne : (u : ℕ) → Has (nodes below) u → p ≢ u
    last-ne u h same =
        omega
          (arith, Frames-later adjacency s.order (p ∷ []) below p last.1 (Has-cons_self p []) u h)

    done-Inv : Inv adjacency Root n (topo_step adjacency ((p, []) ∷ below) s)
    unfolding topo_step
    done-Inv = record {
      frames =
          Frames-done adjacency (s.order ++ p ∷ []) p below (contains_self ℕ_discrete s.order p)
            (Frames-order adjacency s.order (p ∷ []) p below last-ne last.1);
      placed_seen = λ u h. done-in u (v.placed_seen u h);
      seen_placed = λ u h. v.seen_placed u (done-out u h);
      stacked = λ u h.
          let (ne, up) = unstacked s.on_stack p u h in
          elim (Has-cons_cases p u (nodes below)
            (subst (λ l. Has (nodes l) u) e (v.stacked u up))) [
              | inl same ↦ absurd (ne same)
              | inr deep ↦ deep
            ];
      sorted = IsSorted-snoc adjacency [] s.order p v.sorted all-done;
      distinct = snoc-IsDistinct ℕ_discrete s.order p v.distinct last.0.absent;
      acyclic = v.acyclic;
      feeds = λ u h. v.feeds u (done-out u h);
      below = λ u h. v.below u (done-out u h);
    }

  -- A round of the loop keeps the invariant.
  pub topo_step-Inv :
      (s : Dfs) (stack : List (ℕ × List ℕ))
      → s.stack ≡ stack
      → Inv adjacency Root n s
      → Inv adjacency Root n (topo_step adjacency stack s)
  topo_step-Inv s [] e v = unfold topo_step in v
  topo_step-Inv s ((p, c ∷ rest) ∷ below) e v = child-Inv s p c rest below e v
  topo_step-Inv s ((p, []) ∷ below) e v = done-Inv s p below e v
