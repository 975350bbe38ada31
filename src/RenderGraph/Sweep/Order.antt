-- ===== src/RenderGraph/Sweep/Order.antt =====
-- The sweep over whole passes: its edges go backward, and they order every conflict.
use alpenite.Prelude.{
  ℕ, suc, ◌+◌, ◌≡◌, refl, inl, inr, List, [], ◌∷◌, ◌++◌, sym, subst, arith, length, Bool-cases,
}
use alpenite.RenderGraph.Access.{ResourceAccess}
use alpenite.RenderGraph.Nodes.{PassNode}
use alpenite.RenderGraph.Depends.{not-Has-nil, IsBackward}
use alpenite.RenderGraph.Sweep.Defs.{
  Sweep, sweep_access, sweep_accesses, sweep_pass, sweep_passes, start, sweep_resource_versions,
}
use alpenite.RenderGraph.Sweep.State.{Inv, Inv-mono}
use alpenite.RenderGraph.Sweep.Hazards.{Keeps-refl, Keeps-trans, Stepped, sweep_access-Stepped}

-- compile() numbers the passes in declaration order.
abbrev pub IsNumbered : ℕ → List PassNode → Type 0
IsNumbered n [] = Unit {0}
IsNumbered n (p ∷ passes) = (p.index ≡ n) × IsNumbered (suc n) passes

pub IsNumbered-append :
    (n : ℕ) (xs ys : List PassNode)
    → IsNumbered n (xs ++ ys)
    → IsNumbered n xs × IsNumbered (n + length xs) ys
IsNumbered-append n [] ys h = (tt, subst (λ m. IsNumbered m ys) (omega arith) h)
IsNumbered-append n (x ∷ xs) ys (e, h) =
    let (left, right) = IsNumbered-append (suc n) xs ys h in
    ((e, left), subst (λ m. IsNumbered m ys) (omega arith) right)

pub sweep_accesses-append :
    (p : ℕ) (xs ys : List ResourceAccess) (s : Sweep)
    → sweep_accesses p (xs ++ ys) s ≡ sweep_accesses p ys (sweep_accesses p xs s)
unfolding sweep_accesses
sweep_accesses-append p [] ys s = refl
sweep_accesses-append p (x ∷ xs) ys s = sweep_accesses-append p xs ys (sweep_access p x s)

pub sweep_passes-append :
    (xs ys : List PassNode) (s : Sweep)
    → sweep_passes (xs ++ ys) s ≡ sweep_passes ys (sweep_passes xs s)
unfolding sweep_passes
sweep_passes-append [] ys s = refl
sweep_passes-append (x ∷ xs) ys s = sweep_passes-append xs ys (sweep_pass x s)

Stepped-trans : {p : ℕ} {s t u : Sweep} → Stepped p s t → Stepped p t u → Stepped p s u
Stepped-trans f g = record { inv = g.inv; keeps = Keeps-trans f.keeps g.keeps }

pub sweep_accesses-Stepped :
    (p : ℕ) (accesses : List ResourceAccess) (s : Sweep)
    → Inv p s
    → Stepped p s (sweep_accesses p accesses s)
unfolding sweep_accesses
sweep_accesses-Stepped p [] s v = record { inv = v; keeps = Keeps-refl s }
sweep_accesses-Stepped p (a ∷ accesses) s v =
    let one = sweep_access-Stepped p a s v in
    Stepped-trans one (sweep_accesses-Stepped p accesses (sweep_access p a s) one.inv)

pub sweep_pass-Stepped :
    (p : PassNode) (s : Sweep) → Inv p.index s → Stepped p.index s (sweep_pass p s)
unfolding sweep_pass
sweep_pass-Stepped p s v = elim (Bool-cases p.skip_init) [
  | inl skip ↦ rw skip (record { inv = v; keeps = Keeps-refl s })
  | inr run ↦ rw run (sweep_accesses-Stepped p.index p.accesses s v)
]

pub sweep_passes-Stepped :
    (n : ℕ) (passes : List PassNode) (s : Sweep)
    → IsNumbered n passes
    → Inv n s
    → Stepped (n + length passes) s (sweep_passes passes s)
unfolding sweep_passes
sweep_passes-Stepped n [] s h v = record { inv = Inv-mono (omega arith) v; keeps = Keeps-refl s }
sweep_passes-Stepped n (p ∷ passes) s (e, h) v =
    let one = sweep_pass-Stepped p s (subst (λ i. Inv i s) (sym e) v) in
    let rest =
      sweep_passes-Stepped (suc n) passes (sweep_pass p s) h (Inv-mono (omega arith) one.inv) in
    record { inv = Inv-mono (omega arith) rest.inv; keeps = Keeps-trans one.keeps rest.keeps }

pub start-Inv : Inv 0 start
unfolding start
start-Inv = record {
  producers = λ id w e. absurd (cc);
  readers = λ id r h. absurd (not-Has-nil r h);
  backward = λ p q h. absurd (not-Has-nil q h);
  linked = λ d p e pos. absurd (omega arith);
}

-- The edges of a sweep lead from a pass to passes that were declared before it, so the dependency
-- graph has no cycle.
pub sweep-IsBackward :
    (passes : List PassNode) → IsNumbered 0 passes → IsBackward (sweep_resource_versions passes)
unfolding sweep_resource_versions
sweep-IsBackward passes h = (sweep_passes-Stepped 0 passes start h start-Inv).inv.backward
