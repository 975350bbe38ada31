-- ===== src/RenderGraph/Sweep/State.antt =====
-- What the sweep's steps do to its state.
use alpenite.Prelude.{
  ℕ, ◌≤◌, ◌<◌, ◌≡◌, refl, ◌⊎◌, inl, inr, some, List, [], ◌∷◌, contains, ℕ_discrete, update,
  update_ne, arith, Bool-cases, ==_iff, ◌==◌, subst, sym, ◌∙◌,
}
use alpenite.RenderGraph.Depends.{
  Has, not-Has-nil, Has-cons_self, Has-cons, Has-cons_cases, DependsOn, self, via, Sub, IsBackward,
  DependsOn-mono,
}
use alpenite.RenderGraph.Sweep.Defs.{Sweep, emit_edge, emit_edge_unless_self, emit_edges}

-- What holds while the accesses of pass `n` are swept.
pub record Inv (n : ℕ) (s : Sweep) : Type 0 where
  pub producers : (id w : ℕ) → s.current_producer id ≡ some w → w ≤ n
  pub readers : (id r : ℕ) → Has (s.pending_readers id) r → r ≤ n
  pub backward : IsBackward s.adjacency
  pub linked : (d p : ℕ) → s.linked_by d ≡ p → 0 < p → Has (s.adjacency p) d

pub Inv-mono : {m n : ℕ} {s : Sweep} → m ≤ n → Inv m s → Inv n s
Inv-mono h v = record {
  producers = λ id w e. omega (arith, v.producers id w e);
  readers = λ id r e. omega (arith, v.readers id r e);
  backward = v.backward;
  linked = v.linked;
}

-- Edges are added, and nothing else changes.
pub record Grows (s t : Sweep) : Type 0 where
  pub same_producer : t.current_producer ≡ s.current_producer
  pub same_readers : t.pending_readers ≡ s.pending_readers
  pub sub : Sub s.adjacency t.adjacency

pub Grows-refl : (s : Sweep) → Grows s s
Grows-refl s = record { same_producer = refl; same_readers = refl; sub = λ p q h. h }

-- The adjacency lists after one more edge.
abbrev add_edge : (ℕ → List ℕ) → ℕ → ℕ → ℕ → List ℕ
add_edge adj p dep = update adj p (dep ∷ adj p)

add_edge-Sub : (adj : ℕ → List ℕ) (p dep : ℕ) → Sub adj (add_edge adj p dep)
unfolding update contains
add_edge-Sub adj p dep q r h = ground arith

add_edge-Has : (adj : ℕ → List ℕ) (p dep : ℕ) → Has (add_edge adj p dep p) dep
unfolding update contains
add_edge-Has adj p dep = ground arith

add_edge_cases :
    (adj : ℕ → List ℕ) (p dep q r : ℕ)
    → Has (add_edge adj p dep q) r
    → ((p ≡ q) × (dep ≡ r)) ⊎ Has (adj q) r
unfolding update contains
add_edge_cases adj p dep q r h = ground arith

relinked :
    (adj : ℕ → List ℕ) (linked_by : ℕ → ℕ) (p dep d q : ℕ)
    → dep ≡ d
    → update linked_by dep p d ≡ q
    → Has (add_edge adj p dep q) d
unfolding update contains
relinked adj linked_by p dep d q same e = ground arith

-- One edge to an earlier pass, or the same: it is there afterwards, and the invariant is kept.
pub record Linked (p dep : ℕ) (s t : Sweep) : Type 0 where
  pub inv : Inv p t
  pub grows : Grows s t
  pub linked : DependsOn t.adjacency p dep

new_edge-Linked :
    (p dep : ℕ) (s : Sweep)
    → dep < p
    → Inv p s
    → Linked p dep s
        (record s { linked_by = update s.linked_by dep p; adjacency = add_edge s.adjacency p dep })
new_edge-Linked p dep s lt v = record {
  inv = record {
    producers = v.producers;
    readers = v.readers;
    backward = λ q r h. elim (add_edge_cases s.adjacency p dep q r h) [
      | inl e ↦ omega arith
      | inr old ↦ v.backward q r old
    ];
    linked = λ d q e pos. elim (ℕ_discrete dep d) [
      | yes same ↦ relinked s.adjacency s.linked_by p dep d q same e
      | no other ↦
          add_edge-Sub s.adjacency p dep q d
            (v.linked d q (rw (update_ne s.linked_by dep d p other) at e) pos)
    ];
  };
  grows = record {
    same_producer = refl;
    same_readers = refl;
    sub = add_edge-Sub s.adjacency p dep;
  };
  linked = via (add_edge-Has s.adjacency p dep) (self dep);
}

emit_edge-Linked : (p dep : ℕ) (s : Sweep) → dep < p → Inv p s → Linked p dep s (emit_edge p dep s)
unfolding emit_edge
emit_edge-Linked p dep s lt v = elim (Bool-cases (s.linked_by dep == p)) [
  | inl old ↦ rw old (record {
    inv = v;
    grows = Grows-refl s;
    linked = via (v.linked dep p ((==_iff _ _).0 old) (omega arith)) (self dep);
  })
  | inr new ↦ rw new (new_edge-Linked p dep s lt v)
]

pub emit_edge_unless_self-Linked :
    (p dep : ℕ) (s : Sweep) → dep ≤ p → Inv p s → Linked p dep s (emit_edge_unless_self p dep s)
unfolding emit_edge_unless_self
emit_edge_unless_self-Linked p dep s le v = elim (Bool-cases (dep == p)) [
  | inl same ↦ rw same (record {
    inv = v;
    grows = Grows-refl s;
    linked = subst (DependsOn s.adjacency p) (sym ((==_iff _ _).0 same)) (self p);
  })
  | inr other ↦ rw other (emit_edge-Linked p dep s (ground arith) v)
]

-- What a step gains is kept by the next.
pub Grows-trans : {s t u : Sweep} → Grows s t → Grows t u → Grows s u
Grows-trans g h = record {
  same_producer = h.same_producer ∙ g.same_producer;
  same_readers = h.same_readers ∙ g.same_readers;
  sub = λ p q e. h.sub p q (g.sub p q e);
}

pub record LinkedAll (p : ℕ) (deps : List ℕ) (s t : Sweep) : Type 0 where
  pub inv : Inv p t
  pub grows : Grows s t
  pub linked : (d : ℕ) → Has deps d → DependsOn t.adjacency p d

pub emit_edges-LinkedAll :
    (p : ℕ) (deps : List ℕ) (s : Sweep)
    → ((d : ℕ) → Has deps d → d ≤ p)
    → Inv p s
    → LinkedAll p deps s (emit_edges p deps s)
unfolding emit_edges
emit_edges-LinkedAll p [] s le v = record {
  inv = v;
  grows = Grows-refl s;
  linked = λ d h. absurd (not-Has-nil d h);
}
emit_edges-LinkedAll p (r ∷ deps) s le v =
    let s' : Sweep = emit_edge_unless_self p r s in
    let one : Linked p r s s' =
      emit_edge_unless_self-Linked p r s (le r (Has-cons_self r deps)) v in
    let rest : LinkedAll p deps s' (emit_edges p deps s') =
      emit_edges-LinkedAll p deps s' (λ d h. le d (Has-cons r d deps h)) one.inv in
    record {
      inv = rest.inv;
      grows = Grows-trans one.grows rest.grows;
      linked = λ d h. elim (Has-cons_cases r d deps h) [
        | inl e ↦ subst (DependsOn _ p) e (DependsOn-mono _ _ rest.grows.sub one.linked)
        | inr later ↦ rest.linked d later
      ];
    }
