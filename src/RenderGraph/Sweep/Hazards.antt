-- ===== src/RenderGraph/Sweep/Hazards.antt =====
-- No hazard is left unordered: whatever accesses lie between two that conflict, the later pass
-- depends on the earlier.
use alpenite.Prelude.{ℕ, ◌≡◌, inl, inr, some, [], ◌∷◌, sym, ◌∙◌, ap, subst, ◌==◌, Bool-cases}
use alpenite.RenderGraph.Access.{ResourceAccess, access_is_write}
use alpenite.RenderGraph.Depends.{Has, Has-cons, Sub, DependsOn-mono, DependsOn-trans}
use alpenite.RenderGraph.Sweep.Defs.{Sweep, sweep_write, sweep_read, sweep_access}
use alpenite.RenderGraph.Sweep.State.{Inv}
use alpenite.RenderGraph.Sweep.Steps.{
  Written, Covered, Wrote, Read, update_cases, sweep_write-Wrote, sweep_read-Read,
}

-- A state in which nothing is forgotten: what was covered still is, and edges only come in.
pub record Keeps (s t : Sweep) : Type 0 where
  pub written : (id p : ℕ) → Written id p s → Written id p t
  pub covered : (id p : ℕ) → Covered id p s → Covered id p t
  pub sub : Sub s.adjacency t.adjacency

pub Keeps-refl : (s : Sweep) → Keeps s s
Keeps-refl s = record { written = λ id p w. w; covered = λ id p w. w; sub = λ p q h. h }

pub Keeps-trans : {s t u : Sweep} → Keeps s t → Keeps t u → Keeps s u
Keeps-trans k l = record {
  written = λ id p w. l.written id p (k.written id p w);
  covered = λ id p w. l.covered id p (k.covered id p w);
  sub = λ p q h. l.sub p q (k.sub p q h);
}

pub at {ℓ} : {V : Type ℓ} {f g : ℕ → V} (i : ℕ) → f ≡ g → f i ≡ g i
at i e = ap (λ h. h i) e

Wrote-Written :
    (q j : ℕ) {s t : Sweep} → Wrote q j s t → (id p : ℕ) → Written id p s → Written id p t
Wrote-Written q j {s} {t} r id p (w, e, d) = elim (update_cases s.current_producer j id (some q)) [
  | inl (same, h) ↦ (
    q,
    at id r.producer ∙ h,
    DependsOn-trans (r.after_writer w (subst (λ i. s.current_producer i ≡ some w) (sym same) e))
        (DependsOn-mono _ _ r.sub d),
  )
  | inr (_, h) ↦ (w, at id r.producer ∙ (h ∙ e), DependsOn-mono _ _ r.sub d)
]

Wrote-Covered :
    (q j : ℕ) {s t : Sweep} → Wrote q j s t → (id p : ℕ) → Covered id p s → Covered id p t
Wrote-Covered q j r id p (inr w) = inr (Wrote-Written q j r id p w)
Wrote-Covered q j {s} {t} r id p (inl h) = elim (update_cases s.pending_readers j id []) [
  | inl (same, _) ↦ elim (update_cases s.current_producer j id (some q)) [
    | inl (_, e) ↦ inr (
      q,
      at id r.producer ∙ e,
      r.after_readers p (subst (λ i. Has (s.pending_readers i) p) (sym same) h),
    )
    | inr (other, _) ↦ absurd (other same)
  ]
  | inr (_, e) ↦ inl (subst (λ l. Has l p) (sym (at id r.readers ∙ e)) h)
]

Read-Written : (q j : ℕ) {s t : Sweep} → Read q j s t → (id p : ℕ) → Written id p s → Written id p t
Read-Written q j r id p (w, e, d) = (w, at id r.producer ∙ e, DependsOn-mono _ _ r.sub d)

Read-Covered : (q j : ℕ) {s t : Sweep} → Read q j s t → (id p : ℕ) → Covered id p s → Covered id p t
Read-Covered q j r id p (inr w) = inr (Read-Written q j r id p w)
Read-Covered q j {s} {t} r id p (inl h) = inl (
    subst (λ l. Has l p) (sym (at id r.readers))
      (elim (update_cases s.pending_readers j id (q ∷ s.pending_readers j)) [
        | inl (same, e) ↦
            subst (λ l. Has l p) (sym e)
              (Has-cons q p _ (subst (λ i. Has (s.pending_readers i) p) (sym same) h))
        | inr (_, e) ↦ subst (λ l. Has l p) (sym e) h
      ]))

-- One access in a state that is fit for its pass.
pub record Stepped (p : ℕ) (s t : Sweep) : Type 0 where
  pub inv : Inv p t
  pub keeps : Keeps s t

sweep_write-Stepped : (p id : ℕ) (s : Sweep) → Inv p s → Stepped p s (sweep_write p id s)
sweep_write-Stepped p id s v =
    let r = sweep_write-Wrote p id s v in
    record {
      inv = r.inv;
      keeps = record {
        written = Wrote-Written p id r;
        covered = Wrote-Covered p id r;
        sub = r.sub;
      };
    }

sweep_read-Stepped : (p id : ℕ) (s : Sweep) → Inv p s → Stepped p s (sweep_read p id s)
sweep_read-Stepped p id s v =
    let r = sweep_read-Read p id s v in
    record {
      inv = r.inv;
      keeps = record { written = Read-Written p id r; covered = Read-Covered p id r; sub = r.sub };
    }

pub sweep_access-Stepped :
    (p : ℕ) (a : ResourceAccess) (s : Sweep) → Inv p s → Stepped p s (sweep_access p a s)
unfolding sweep_access
sweep_access-Stepped p a s v = elim (Bool-cases (a.handle.id == 0)) [
  | inl no_id ↦ rw no_id (record { inv = v; keeps = Keeps-refl s })
  | inr an_id ↦ rw an_id (elim (Bool-cases (access_is_write a.type)) [
    | inl w ↦ rw w (sweep_write-Stepped p a.handle.id s v)
    | inr r ↦ rw r (sweep_read-Stepped p a.handle.id s v)
  ])
]
