-- ===== src/RenderGraph/Sweep/Steps.antt =====
-- One access of a pass: what it depends on, and what the state knows of the accesses before it.
use alpenite.Prelude.{
  ℕ, ◌≤◌, ◌≡◌, refl, ◌≢◌, ◌⊎◌, inl, inr, Option, none, some, List, [], ◌∷◌, sym, ◌∙◌, ap, subst,
  ℕ_discrete, update, update_self, update_ne, arith,
}
use alpenite.RenderGraph.Depends.{Has, not-Has-nil, Has-cons_cases, DependsOn, Sub, DependsOn-mono}
use alpenite.RenderGraph.Sweep.Defs.{
  Sweep, emit_edge_unless_self, emit_edges, emit_producer, sweep_write, sweep_read,
}
use alpenite.RenderGraph.Sweep.State.{
  Inv, Grows, Grows-refl, Grows-trans, Linked, LinkedAll, emit_edge_unless_self-Linked,
  emit_edges-LinkedAll,
}

-- Pass `p` wrote what the resource holds, or a pass did that depends on `p`.
abbrev pub Written : ℕ → ℕ → Sweep → Type 0
Written id p s = (w : ℕ) × (s.current_producer id ≡ some w) × DependsOn s.adjacency w p

-- Pass `p` reads the current version, or its writer depends on `p`.
abbrev pub Covered : ℕ → ℕ → Sweep → Type 0
Covered id p s = Has (s.pending_readers id) p ⊎ Written id p s

emit_producer-LinkedAll :
    (p : ℕ) (producer : Option ℕ) (s : Sweep)
    → ((w : ℕ) → producer ≡ some w → w ≤ p)
    → Inv p s
    → Inv p (emit_producer p producer s)
      × Grows s (emit_producer p producer s)
      × ((w : ℕ) → producer ≡ some w → DependsOn (emit_producer p producer s).adjacency p w)
unfolding emit_producer
emit_producer-LinkedAll p none s le v = (v, Grows-refl s, λ w e. absurd (cc))
emit_producer-LinkedAll p (some w) s le v =
    let one : Linked p w s (emit_edge_unless_self p w s) =
      emit_edge_unless_self-Linked p w s (le w refl) v in
    (one.inv, one.grows, λ x e. let same : w ≡ x = cc in subst (DependsOn _ p) same one.linked)

-- What an access of pass `p` to resource `id` achieves, a write or a read.
pub record Wrote (p id : ℕ) (s t : Sweep) : Type 0 where
  pub inv : Inv p t
  pub sub : Sub s.adjacency t.adjacency
  pub producer : t.current_producer ≡ update s.current_producer id (some p)
  pub readers : t.pending_readers ≡ update s.pending_readers id []
  pub after_writer : (w : ℕ) → s.current_producer id ≡ some w → DependsOn t.adjacency p w
  pub after_readers : (r : ℕ) → Has (s.pending_readers id) r → DependsOn t.adjacency p r

pub record Read (p id : ℕ) (s t : Sweep) : Type 0 where
  pub inv : Inv p t
  pub sub : Sub s.adjacency t.adjacency
  pub producer : t.current_producer ≡ s.current_producer
  pub readers : t.pending_readers ≡ update s.pending_readers id (p ∷ s.pending_readers id)
  pub after_writer : (w : ℕ) → s.current_producer id ≡ some w → DependsOn t.adjacency p w

-- Reading an updated array, at the place of the update or elsewhere.
pub update_cases {ℓ} :
    {V : Type ℓ} (f : ℕ → V) (k j : ℕ) (v : V)
    → ((k ≡ j) × (update f k v j ≡ v)) ⊎ ((k ≢ j) × (update f k v j ≡ f j))
update_cases f k j v = elim (ℕ_discrete k j) [
  | yes e ↦ inl (e, subst (λ x. update f k v x ≡ v) e (update_self f k v))
  | no n ↦ inr (n, update_ne f k j v n)
]

new_version-Inv :
    (p id : ℕ) (s : Sweep)
    → Inv p s
    → Inv p (record s {
      current_producer = update s.current_producer id (some p);
      pending_readers = update s.pending_readers id [];
    })
new_version-Inv p id s v = record {
  producers = λ j w e. elim (update_cases s.current_producer id j (some p)) [
    | inl (_, h) ↦ let same : p ≡ w = cc in omega arith
    | inr (_, h) ↦ v.producers j w (sym h ∙ e)
  ];
  readers = λ j r e. elim (update_cases s.pending_readers id j []) [
    | inl (_, h) ↦ absurd (not-Has-nil r (subst (λ l. Has l r) h e))
    | inr (_, h) ↦ v.readers j r (subst (λ l. Has l r) h e)
  ];
  backward = v.backward;
  linked = v.linked;
}

new_reader-Inv :
    (p id : ℕ) (s : Sweep)
    → Inv p s
    → Inv p (record s { pending_readers = update s.pending_readers id (p ∷ s.pending_readers id) })
new_reader-Inv p id s v = record {
  producers = v.producers;
  readers = λ j r e. elim (update_cases s.pending_readers id j (p ∷ s.pending_readers id)) [
    | inl (_, h) ↦ elim (Has-cons_cases p r _ (subst (λ l. Has l r) h e)) [
      | inl same ↦ omega arith
      | inr old ↦ v.readers id r old
    ]
    | inr (_, h) ↦ v.readers j r (subst (λ l. Has l r) h e)
  ];
  backward = v.backward;
  linked = v.linked;
}

pub sweep_write-Wrote : (p id : ℕ) (s : Sweep) → Inv p s → Wrote p id s (sweep_write p id s)
unfolding sweep_write
sweep_write-Wrote p id s v =
    let waw : Sweep = emit_producer p (s.current_producer id) s in
    let (v1, g1, l1) = emit_producer-LinkedAll p (s.current_producer id) s (v.producers id) v in
    let all : LinkedAll p (waw.pending_readers id) waw (emit_edges p (waw.pending_readers id) waw) =
      emit_edges-LinkedAll p (waw.pending_readers id) waw (v1.readers id) v1 in
    let g : Grows s (emit_edges p (waw.pending_readers id) waw) = Grows-trans g1 all.grows in
    record {
      inv = new_version-Inv p id _ all.inv;
      sub = g.sub;
      producer = ap (λ f. update f id (some p)) g.same_producer;
      readers = ap (λ f. update f id []) g.same_readers;
      after_writer = λ w e. DependsOn-mono _ _ all.grows.sub (l1 w e);
      after_readers =
          λ r h. all.linked r (subst (λ (f : ℕ → List ℕ). Has (f id) r) (sym g1.same_readers) h);
    }

pub sweep_read-Read : (p id : ℕ) (s : Sweep) → Inv p s → Read p id s (sweep_read p id s)
unfolding sweep_read
sweep_read-Read p id s v =
    let (v1, g1, l1) = emit_producer-LinkedAll p (s.current_producer id) s (v.producers id) v in
    record {
      inv = new_reader-Inv p id _ v1;
      sub = g1.sub;
      producer = g1.same_producer;
      readers = ap (λ (f : ℕ → List ℕ). update f id (p ∷ f id)) g1.same_readers;
      after_writer = l1;
    }
