-- ===== src/RenderGraph/Topo/Fuel.antt =====
-- The search ends: every round does a part of the work that is left, and there is fuel for all of it.
use alpenite.Prelude.{
  ℕ, zero, suc, ◌+◌, ◌≤◌, ◌<◌, ◌≡◌, refl, ◌⊎◌, inl, inr, Bool, true, false, some, List, [], ◌∷◌,
  sym, ◌∙◌, subst, length, update, update_self, update_ne, arith, Bool-cases, ℕ_discrete,
}
use alpenite.RenderGraph.Depends.{Has, not-Has-nil, IsBackward, Has-cons}
use alpenite.RenderGraph.Topo.Defs.{Dfs, push, topo_step, topo_loop, work}
use alpenite.RenderGraph.Topo.Frames.{nodes, Seen, Inv}
use alpenite.RenderGraph.Topo.Rounds.{child-off, child-edge, top-Seen, topo_step-Inv, done-in}

module _ (adjacency : ℕ → List ℕ) where
  work_above :
      (n c : ℕ) (placed : ℕ → Bool)
      → n ≤ c
      → work n adjacency (update placed c true) ≡ work n adjacency placed
  unfolding work
  work_above zero c placed h = refl
  work_above (suc n) c placed h =
      rw (update_ne placed c n true (omega arith), work_above n c placed (omega arith))

  work_here :
      (n : ℕ) (placed : ℕ → Bool)
      → placed n ≡ false
      → work (suc n) adjacency (update placed n true) + suc (length (adjacency n))
        ≡ work (suc n) adjacency placed
  unfolding work
  work_here n placed new =
      rw (update_self placed n true, new, work_above n n placed (omega arith)) (omega arith)

  -- A pass that is placed takes its share of the work off.
  pub work_placed :
      (n c : ℕ) (placed : ℕ → Bool)
      → c < n
      → placed c ≡ false
      → work n adjacency (update placed c true) + suc (length (adjacency c))
        ≡ work n adjacency placed
  unfolding work
  work_placed zero c placed h new = absurd (omega arith)
  work_placed (suc n) c placed h new = elim (ℕ_discrete c n) [
    | yes e ↦
        subst
          (λ k.
            placed k ≡ false
            → work (suc n) adjacency (update placed k true) + suc (length (adjacency k))
              ≡ work (suc n) adjacency placed)
          (sym e) (work_here n placed) new
    | no ne ↦
        rw (update_ne placed c n true ne) (omega (arith, work_placed n c placed (omega arith) new))
  ]

  pub work-le :
      (n : ℕ) (placed : ℕ → Bool) → work n adjacency placed ≤ work n adjacency (λ _. false)
  unfolding work
  work-le zero placed = omega arith
  work-le (suc n) placed = ground (arith, work-le n placed)

  -- What the frames on the stack have left to do.
  pub owed : List (ℕ × List ℕ) → ℕ
  owed [] = 0
  owed ((v, rest) ∷ below) = suc (length rest) + owed below

List-cases :
    (stack : List (ℕ × List ℕ))
    → (stack ≡ []) ⊎ ((f : ℕ × List ℕ) × (below : List (ℕ × List ℕ)) × (stack ≡ f ∷ below))
List-cases [] = inl refl
List-cases (f ∷ below) = inr (f, below, refl)

module _ (adjacency : ℕ → List ℕ) (Root : ℕ → Type 0) (n : ℕ) (back : IsBackward adjacency) where
  -- The rounds that the search may still take.
  pub measure : Dfs → ℕ
  measure s = owed adjacency s.stack + work n adjacency s.placed

  measure-child :
      (s : Dfs) (p c : ℕ) (rest : List ℕ) (below : List (ℕ × List ℕ))
      → s.stack ≡ (p, c ∷ rest) ∷ below
      → Inv adjacency Root n s
      → measure (topo_step adjacency ((p, c ∷ rest) ∷ below) s) + 1
        ≡ owed adjacency ((p, c ∷ rest) ∷ below) + work n adjacency s.placed
  unfolding measure topo_step push owed
  measure-child s p c rest below e v =
      rw (child-off adjacency Root n back s p c rest below e v) (elim (Bool-cases (s.placed c)) [
        | inl old ↦ rw old (omega arith)
        | inr new ↦ rw new (
            omega (
              arith,
              work_placed adjacency n c s.placed
                  (omega (
                    arith,
                    back p c (child-edge adjacency Root n back s p c rest below e v),
                    v.below p (top-Seen adjacency Root n back s p c rest below e v),
                  ))
                  new,
            ))
      ])

  measure-step :
      (s : Dfs) (f : ℕ × List ℕ) (below : List (ℕ × List ℕ))
      → s.stack ≡ f ∷ below
      → Inv adjacency Root n s
      → measure (topo_step adjacency (f ∷ below) s) + 1 ≡ measure s
  unfolding measure owed topo_step
  measure-step s (p, c ∷ rest) below e v =
      rw e (unfold measure in measure-child s p c rest below e v)
  measure-step s (p, []) below e v = unfold topo_step in rw e (omega arith)

  -- What a round has met stays met.
  step-Seen :
      (s : Dfs) (f : ℕ × List ℕ) (below : List (ℕ × List ℕ))
      → s.stack ≡ f ∷ below
      → Inv adjacency Root n s
      → (u : ℕ) → Seen s u
      → Seen (topo_step adjacency (f ∷ below) s) u
  unfolding topo_step push
  step-Seen s (p, []) below e v u h = done-in adjacency Root n back s p below e v u h
  step-Seen s (p, c ∷ rest) below e v u h =
      rw (child-off adjacency Root n back s p c rest below e v) (
        let same : Has s.order u ⊎ Has (p ∷ nodes below) u =
          subst (λ l. Has s.order u ⊎ Has (nodes l) u) e h in
        elim (Bool-cases (s.placed c)) [
          | inl old ↦ rw old same
          | inr new ↦ rw new (elim same [
            | inl done ↦ inl done
            | inr deep ↦ inr (Has-cons c u (p ∷ nodes below) deep)
          ])
        ])

  -- The search from where it stands: it ends, with all that it had met in the order.
  pub record Ended (s t : Dfs) : Type 0 where
    pub inv : Inv adjacency Root n t
    pub empty : t.stack ≡ []
    pub met : (u : ℕ) → Seen s u → Has t.order u

  pub met_of_empty : (s : Dfs) → s.stack ≡ [] → (u : ℕ) → Seen s u → Has s.order u
  met_of_empty s e u (inl h) = h
  met_of_empty s e u (inr h) = absurd (not-Has-nil u (subst (λ l. Has (nodes l) u) e h))

  loop_done : (fuel : ℕ) (s : Dfs) → s.stack ≡ [] → topo_loop fuel adjacency s ≡ some s
  unfolding topo_loop
  loop_done zero s e = ground arith
  loop_done (suc fuel) s e = ground arith

  loop_on :
      (fuel : ℕ) (s : Dfs) (f : ℕ × List ℕ) (below : List (ℕ × List ℕ))
      → s.stack ≡ f ∷ below
      → topo_loop (suc fuel) adjacency s
        ≡ topo_loop fuel adjacency (topo_step adjacency (f ∷ below) s)
  unfolding topo_loop
  loop_on fuel s f below e = ground arith

  pub topo_loop-Ended :
      (fuel : ℕ) (s : Dfs)
      → measure s ≤ fuel
      → Inv adjacency Root n s
      → (t : Dfs) × (topo_loop fuel adjacency s ≡ some t) × Ended s t
  unfolding topo_loop
  topo_loop-Ended zero s h v = elim (List-cases s.stack) [
    | inl e ↦ (s, loop_done 0 s e, record { inv = v; empty = e; met = met_of_empty s e })
    | inr (f, below, e) ↦ absurd (omega (arith, measure-step s f below e v))
  ]
  topo_loop-Ended (suc fuel) s h v = elim (List-cases s.stack) [
    | inl e ↦ (s, loop_done (suc fuel) s e, record { inv = v; empty = e; met = met_of_empty s e })
    | inr (f, below, e) ↦
        let s' = topo_step adjacency (f ∷ below) s in
        let v' = topo_step-Inv adjacency Root n back s (f ∷ below) e v in
        let (t, run, ended) =
          topo_loop-Ended fuel s' (omega (arith, measure-step s f below e v)) v' in
        (
          t,
          loop_on fuel s f below e ∙ run,
          record {
            inv = ended.inv;
            empty = ended.empty;
            met = λ u k. ended.met u (step-Seen s f below e v u k);
          },
        )
  ]

  -- The fuel is enough for a visit.
  pub push-measure :
      (root : ℕ) (s : Dfs)
      → root < n
      → s.placed root ≡ false
      → measure (push adjacency root [] s) ≤ work n adjacency (λ _. false)
  unfolding measure push owed
  push-measure root s lt new =
      omega (arith, work_placed adjacency n root s.placed lt new, work-le adjacency n s.placed)
