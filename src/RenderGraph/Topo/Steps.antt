-- ===== src/RenderGraph/Topo/Steps.antt =====
-- One round of the search keeps the invariant.
use alpenite.Prelude.{
  ℕ, ◌<◌, ◌≡◌, ◌≢◌, ◌⊎◌, inl, inr, Bool, true, false, List, [], ◌∷◌, sym, ap, subst, contains,
  ℕ_discrete, update, arith, Bool-cases,
}
use alpenite.RenderGraph.Depends.{
  Has, IsBackward, not-Has-nil, Has-cons_self, Has-cons, Has-cons_cases,
}
use alpenite.RenderGraph.Topo.Defs.{Dfs, push}
use alpenite.RenderGraph.Topo.Frames.{nodes, Frames, Feeds, Seen, Inv}

placed_after : (f : ℕ → Bool) (v u : ℕ) → update f v true u ≡ true → (v ≡ u) ⊎ (f u ≡ true)
unfolding update
placed_after f v u h = ground arith

placed_still : (f : ℕ → Bool) (v u : ℕ) → (v ≡ u) ⊎ (f u ≡ true) → update f v true u ≡ true
unfolding update
placed_still f v u h = ground arith

pub unstacked : (f : ℕ → Bool) (v u : ℕ) → update f v false u ≡ true → (v ≢ u) × (f u ≡ true)
unfolding update
unstacked f v u h = (λ e. ground arith, ground arith)

-- What the search has met is unchanged but for one pass.
record Adds (c : ℕ) (s t : Dfs) : Type 0 where
  into : (u : ℕ) → Seen s u → Seen t u
  out : (u : ℕ) → Seen t u → (c ≡ u) ⊎ Seen s u

module _ (adjacency : ℕ → List ℕ) (Root : ℕ → Type 0) (n : ℕ) (back : IsBackward adjacency) where
  push-Adds :
      (s : Dfs) (c : ℕ) (stack : List (ℕ × List ℕ))
      → nodes stack ≡ nodes s.stack
      → Adds c s (push adjacency c stack s)
  unfolding push
  push-Adds s c stack same = record {
    into = λ u h. elim h [
      | inl done ↦ inl done
      | inr deep ↦ inr (Has-cons c u (nodes stack) (subst (λ l. Has l u) (sym same) deep))
    ];
    out = λ u h. elim h [
      | inl done ↦ inr (inl done)
      | inr deep ↦ elim (Has-cons_cases c u (nodes stack) deep) [
        | inl e ↦ inl e
        | inr old ↦ inr (inr (subst (λ l. Has l u) same old))
      ]
    ];
  }

  pub new-absent :
      (s : Dfs) (c : ℕ)
      → Inv adjacency Root n s
      → s.placed c ≡ false
      → contains ℕ_discrete s.order c ≡ false
  new-absent s c v new = elim (Bool-cases (contains ℕ_discrete s.order c)) [
    | inl old ↦ let was = v.seen_placed c (inl old) in absurd (cc)
    | inr e ↦ e
  ]

  -- A new frame for a pass that was not met before, over frames that wait for it.
  pub push-Inv :
      (s : Dfs) (c : ℕ) (stack : List (ℕ × List ℕ))
      → Inv adjacency Root n s
      → s.placed c ≡ false
      → nodes stack ≡ nodes s.stack
      → Frames adjacency s.order (c ∷ []) stack
      → Feeds adjacency Root n c
      → c < n
      → Inv adjacency Root n (push adjacency c stack s)
  unfolding push
  push-Inv s c stack v new same frames feeds lt =
      let met = push-Adds s c stack same in
      record {
        frames = (
          record {
            waits = λ d h. inr (inl h);
            part = λ d h. h;
            later = λ d h. absurd (not-Has-nil d h);
            absent = new-absent s c v new;
          },
          frames,
        );
        placed_seen = λ u h. elim (placed_after s.placed c u h) [
          | inl e ↦ inr (subst (Has (c ∷ nodes stack)) e (Has-cons_self c (nodes stack)))
          | inr old ↦ met.into u (v.placed_seen u old)
        ];
        seen_placed = λ u h.
            placed_still s.placed c u
              (elim (met.out u h) [ inl e ↦ inl e | inr old ↦ inr (v.seen_placed u old) ]);
        stacked = λ u h. elim (placed_after s.on_stack c u h) [
          | inl e ↦ subst (Has (c ∷ nodes stack)) e (Has-cons_self c (nodes stack))
          | inr old ↦ Has-cons c u (nodes stack) (subst (λ l. Has l u) (sym same) (v.stacked u old))
        ];
        sorted = v.sorted;
        distinct = v.distinct;
        acyclic = v.acyclic;
        feeds = λ u h. elim (met.out u h) [
          | inl e ↦ subst (Feeds adjacency Root n) e feeds
          | inr old ↦ v.feeds u old
        ];
        below =
            λ u h. elim (met.out u h) [ inl e ↦ subst (λ x. x < n) e lt | inr old ↦ v.below u old ];
      }

  -- The top frame drops an entry of its list that is in the order.
  pub skip-Inv :
      (s : Dfs) (p c : ℕ) (rest : List ℕ) (below : List (ℕ × List ℕ))
      → s.stack ≡ (p, c ∷ rest) ∷ below
      → Inv adjacency Root n s
      → Has s.order c
      → Inv adjacency Root n (record s { stack = (p, rest) ∷ below })
  skip-Inv s p c rest below e v done =
      let nodes_eq : nodes s.stack ≡ p ∷ nodes below = ap nodes e in
      let seen : (u : ℕ) → Has s.order u ⊎ Has (p ∷ nodes below) u → Seen s u =
        λ u h. subst (λ l. Has s.order u ⊎ Has l u) (sym nodes_eq) h in
      let (top, deep) = subst (Frames adjacency s.order []) e v.frames in
      record {
        frames = (
          record {
            waits = λ d h. elim (top.waits d h) [
              | inl here ↦ inl here
              | inr more ↦ elim more [
                | inl left ↦ elim (Has-cons_cases c d rest left) [
                  | inl same ↦ inl (subst (Has s.order) same done)
                  | inr there ↦ inr (inl there)
                ]
                | inr above ↦ inr (inr above)
              ]
            ];
            part = λ d h. top.part d (Has-cons c d rest h);
            later = top.later;
            absent = top.absent;
          },
          deep,
        );
        placed_seen = λ u h. subst (λ l. Has s.order u ⊎ Has l u) nodes_eq (v.placed_seen u h);
        seen_placed = λ u h. v.seen_placed u (seen u h);
        stacked = λ u h. subst (λ l. Has l u) nodes_eq (v.stacked u h);
        sorted = v.sorted;
        distinct = v.distinct;
        acyclic = v.acyclic;
        feeds = λ u h. v.feeds u (seen u h);
        below = λ u h. v.below u (seen u h);
      }
