-- ===== src/RenderGraph/Sweep/Conflicts.antt =====
-- Two passes with conflicting accesses: the later depends on the earlier.
use alpenite.Prelude.{
  ℕ, ◌≡◌, ◌≢◌, ◌⊎◌, inl, inr, true, false, List, ◌∷◌, ◌++◌, sym, ◌∙◌, subst, update_self, some,
  arith, Bool-cases, ==_iff, ◌==◌,
}
use alpenite.RenderGraph.Access.{ResourceAccess, access_is_write}
use alpenite.RenderGraph.Nodes.{PassNode}
use alpenite.RenderGraph.Depends.{
  Has, Has-cons_self, DependsOn, self, DependsOn-mono, DependsOn-trans,
}
use alpenite.RenderGraph.Sweep.Defs.{
  Sweep, sweep_write, sweep_read, sweep_access, sweep_accesses, sweep_pass, sweep_passes, start,
  sweep_resource_versions,
}
use alpenite.RenderGraph.Sweep.State.{Inv, Inv-mono}
use alpenite.RenderGraph.Sweep.Steps.{Written, Covered, sweep_write-Wrote, sweep_read-Read}
use alpenite.RenderGraph.Sweep.Hazards.{Keeps, sweep_access-Stepped, at}
use alpenite.RenderGraph.Sweep.Order.{
  IsNumbered, IsNumbered-append, sweep_accesses-append, sweep_passes-append, sweep_accesses-Stepped,
  sweep_pass-Stepped, sweep_passes-Stepped, start-Inv,
}

-- Two accesses of one resource, at least one of which writes it.
pub record IsConflict (a b : ResourceAccess) : Type 0 where
  pub same : a.handle.id ≡ b.handle.id
  pub valid : a.handle.id ≢ 0
  pub writes : (access_is_write a.type ≡ true) ⊎ (access_is_write b.type ≡ true)

-- What the state knows of an access once it is swept: `w` tells whether it writes.
abbrev Noted : (id p : ℕ) → Sweep → (a : ResourceAccess) → Type 0
Noted id p s a = Covered id p s × ((access_is_write a.type ≡ true) → Written id p s)

write-Noted : (p id : ℕ) (s : Sweep) → Inv p s → Written id p (sweep_write p id s)
write-Noted p id s v = (
  p,
  at id (sweep_write-Wrote p id s v).producer ∙ update_self s.current_producer id (some p),
  self p,
)

read-Noted : (p id : ℕ) (s : Sweep) → Inv p s → Has ((sweep_read p id s).pending_readers id) p
read-Noted p id s v =
    subst (λ l. Has l p)
      (sym (
        at id (sweep_read-Read p id s v).readers
        ∙ update_self s.pending_readers id (p ∷ s.pending_readers id)))
      (Has-cons_self p (s.pending_readers id))

access-Noted :
    (p : ℕ) (a : ResourceAccess) (s : Sweep)
    → a.handle.id ≢ 0
    → Inv p s
    → Noted a.handle.id p (sweep_access p a s) a
unfolding sweep_access
access-Noted p a s ne v = elim (Bool-cases (a.handle.id == 0)) [
  | inl no_id ↦ absurd (ne ((==_iff _ _).0 no_id))
  | inr an_id ↦ rw an_id (elim (Bool-cases (access_is_write a.type)) [
    | inl w ↦ let now = write-Noted p a.handle.id s v in rw w (inr now, λ _. now)
    | inr r ↦ rw r (inl (read-Noted p a.handle.id s v), λ h. absurd (cc))
  ])
]

-- The later of two conflicting accesses depends on the pass of the earlier.
access-DependsOn :
    (p q : ℕ) (a b : ResourceAccess) (s : Sweep)
    → IsConflict a b
    → Noted b.handle.id p s a
    → Inv q s
    → DependsOn (sweep_access q b s).adjacency q p
unfolding sweep_access
access-DependsOn p q a b s c noted v = elim (Bool-cases (b.handle.id == 0)) [
  | inl no_id ↦ absurd (c.valid (c.same ∙ (==_iff _ _).0 no_id))
  | inr an_id ↦ rw an_id (elim (Bool-cases (access_is_write b.type)) [
    | inl w ↦ rw w (
        let r = sweep_write-Wrote q b.handle.id s v in
        elim noted.0 [
          | inl reads ↦ r.after_readers p reads
          | inr (x, e, d) ↦ DependsOn-trans (r.after_writer x e) (DependsOn-mono _ _ r.sub d)
        ])
    | inr n ↦ rw n (
        let r = sweep_read-Read q b.handle.id s v in
        let (x, e, d) : Written b.handle.id p s = noted.1 (ground arith) in
        DependsOn-trans (r.after_writer x e) (DependsOn-mono _ _ r.sub d))
  ])
]

Noted-Keeps :
    (id p : ℕ) (a : ResourceAccess) {s t : Sweep} → Keeps s t → Noted id p s a → Noted id p t a
Noted-Keeps id p a k (c, w) = (k.covered id p c, λ h. k.written id p (w h))

-- A pass that runs, whose accesses are split at one of them.
pub record Uses (p : PassNode) (a : ResourceAccess) : Type 0 where
  pub runs : p.skip_init ≡ false
  pub before : List ResourceAccess
  pub after : List ResourceAccess
  pub split : p.accesses ≡ before ++ a ∷ after

pass-Noted :
    (p : PassNode) (a : ResourceAccess) (s : Sweep)
    → Uses p a
    → a.handle.id ≢ 0
    → Inv p.index s
    → Noted a.handle.id p.index (sweep_pass p s) a
unfolding sweep_pass sweep_accesses
pass-Noted p a s u ne v =
    rw (u.runs, u.split, sweep_accesses-append p.index u.before (a ∷ u.after) s)
      (let s' = sweep_accesses p.index u.before s in
        let v' = (sweep_accesses-Stepped p.index u.before s v).inv in
        let one = sweep_access-Stepped p.index a s' v' in
        Noted-Keeps a.handle.id p.index a
          (sweep_accesses-Stepped p.index u.after (sweep_access p.index a s') one.inv).keeps
          (access-Noted p.index a s' ne v'))

pass-DependsOn :
    (p : ℕ) (q : PassNode) (a b : ResourceAccess) (s : Sweep)
    → IsConflict a b
    → Uses q b
    → Noted a.handle.id p s a
    → Inv q.index s
    → DependsOn (sweep_pass q s).adjacency q.index p
unfolding sweep_pass sweep_accesses
pass-DependsOn p q a b s c u noted v =
    rw (u.runs, u.split, sweep_accesses-append q.index u.before (b ∷ u.after) s)
      (let s' = sweep_accesses q.index u.before s in
        let before = sweep_accesses-Stepped q.index u.before s v in
        let kept = Noted-Keeps a.handle.id p a before.keeps noted in
        let one = sweep_access-Stepped q.index b s' before.inv in
        DependsOn-mono _ _
          (sweep_accesses-Stepped q.index u.after (sweep_access q.index b s') one.inv).keeps.sub
          (access-DependsOn p q.index a b s' c (subst (λ i. Noted i p s' a) c.same kept)
            before.inv))

-- Let two passes that run make conflicting accesses: of one resource, one of them a write. Then the
-- pass that is declared later depends on the other, whatever is declared before, between and after
-- them.
pub conflict-DependsOn :
    (pre mid post : List PassNode) (p q : PassNode) (a b : ResourceAccess)
    → IsNumbered 0 (pre ++ p ∷ (mid ++ q ∷ post))
    → Uses p a
    → Uses q b
    → IsConflict a b
    → DependsOn (sweep_resource_versions (pre ++ p ∷ (mid ++ q ∷ post))) q.index p.index
unfolding sweep_resource_versions sweep_passes
conflict-DependsOn pre mid post p q a b numbered u w c =
    let (n0, n1) = IsNumbered-append 0 pre (p ∷ (mid ++ q ∷ post)) numbered in
    let (n2, n3) = IsNumbered-append _ mid (q ∷ post) n1.1 in
    let s1 = sweep_passes pre start in
    let f1 = sweep_passes-Stepped 0 pre start n0 start-Inv in
    let v1 : Inv p.index s1 = subst (λ i. Inv i s1) (sym n1.0) f1.inv in
    let f2 = sweep_pass-Stepped p s1 v1 in
    let s2 = sweep_pass p s1 in
    let v2 : Inv _ s2 = Inv-mono (omega arith) f2.inv in
    let f3 = sweep_passes-Stepped _ mid s2 n2 v2 in
    let s3 = sweep_passes mid s2 in
    let v3 : Inv q.index s3 = subst (λ i. Inv i s3) (sym n3.0) f3.inv in
    let f4 = sweep_pass-Stepped q s3 v3 in
    let v4 : Inv _ (sweep_pass q s3) = Inv-mono (omega arith) f4.inv in
    let noted = Noted-Keeps a.handle.id p.index a f3.keeps (pass-Noted p a s1 u c.valid v1) in
    let whole : sweep_passes (pre ++ p ∷ (mid ++ q ∷ post)) start
        ≡ sweep_passes post (sweep_pass q s3) =
      sweep_passes-append pre (p ∷ (mid ++ q ∷ post)) start
      ∙ sweep_passes-append mid (q ∷ post) s2 in
    subst (λ (s : Sweep). DependsOn s.adjacency q.index p.index) (sym whole)
      (DependsOn-mono _ _ (sweep_passes-Stepped _ post (sweep_pass q s3) n3.1 v4).keeps.sub
        (pass-DependsOn p.index q a b s3 c w noted v3))
