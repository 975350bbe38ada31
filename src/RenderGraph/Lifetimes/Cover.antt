-- ===== src/RenderGraph/Lifetimes/Cover.antt =====
-- The lifetimes of the whole walk.
use alpenite.Prelude.{
  ℕ, suc, ◌+◌, ◌≤◌, ◌<◌, ◌≡◌, false, some, List, [], ◌∷◌, ◌++◌, sym, subst, length, update_self,
  update_ne, arith, ℕ_discrete,
}
use alpenite.RenderGraph.Access.{ResourceAccess}
use alpenite.RenderGraph.Nodes.{PassNode}
use alpenite.RenderGraph.Resources.{ResourceNode, is_external}
use alpenite.RenderGraph.Lifetimes.Defs.{
  Life, no_life, gather_access, gather_accesses, gather_passes, lifetimes,
}
use alpenite.RenderGraph.Lifetimes.Touch.{IsLife, Covers, touch-IsLife, touch-Covers, touch-old}

-- Every place that a lifetime holds at the pass `i`.
IsLives : ℕ → (ℕ → Life) → Type 0
IsLives i u = (id : ℕ) → IsLife i (u id)

gather_access-IsLives :
    (by_id : ℕ → ResourceNode) (i : ℕ) (a : ResourceAccess) (u : ℕ → Life)
    → IsLives i u
    → IsLives i (gather_access by_id i a u)
unfolding IsLives gather_access
gather_access-IsLives by_id i a u v id = elim (ℕ_discrete a.handle.id id) [
  | yes e ↦
      subst (λ j. IsLife i (gather_access by_id i a u j)) e
        (subst (IsLife i) (sym (update_self u a.handle.id _))
          (touch-IsLife (by_id a.handle.id) i a (u a.handle.id) (v a.handle.id)))
  | no ne ↦ subst (IsLife i) (sym (update_ne u a.handle.id id _ ne)) (v id)
]

gather_access-old :
    (by_id : ℕ → ResourceNode) (i k : ℕ) (a : ResourceAccess) (u : ℕ → Life) (id : ℕ)
    → k ≤ i
    → Covers k (u id)
    → Covers k (gather_access by_id i a u id)
unfolding gather_access
gather_access-old by_id i k a u id le c = elim (ℕ_discrete a.handle.id id) [
  | yes e ↦
      subst (λ j. Covers k (gather_access by_id i a u j)) e
        (subst (Covers k) (sym (update_self u a.handle.id _)) (
          touch-old (by_id a.handle.id) i k a (u a.handle.id) le
            (subst (λ j. Covers k (u j)) (sym e) c)))
  | no ne ↦ subst (Covers k) (sym (update_ne u a.handle.id id _ ne)) c
]

gather_access-Covers :
    (by_id : ℕ → ResourceNode) (i : ℕ) (a : ResourceAccess) (u : ℕ → Life)
    → is_external (by_id a.handle.id) ≡ false
    → IsLives i u
    → Covers i (gather_access by_id i a u a.handle.id)
unfolding gather_access IsLives
gather_access-Covers by_id i a u own v =
    subst (Covers i) (sym (update_self u a.handle.id _))
      (touch-Covers (by_id a.handle.id) i a (u a.handle.id) own (v a.handle.id))

gather_accesses-IsLives :
    (by_id : ℕ → ResourceNode) (i : ℕ) (accesses : List ResourceAccess) (u : ℕ → Life)
    → IsLives i u
    → IsLives i (gather_accesses by_id i accesses u)
unfolding gather_accesses
gather_accesses-IsLives by_id i [] u v = v
gather_accesses-IsLives by_id i (a ∷ accesses) u v =
    gather_accesses-IsLives by_id i accesses (gather_access by_id i a u)
      (gather_access-IsLives by_id i a u v)

gather_accesses-old :
    (by_id : ℕ → ResourceNode) (i k : ℕ) (accesses : List ResourceAccess) (u : ℕ → Life) (id : ℕ)
    → k ≤ i
    → Covers k (u id)
    → Covers k (gather_accesses by_id i accesses u id)
unfolding gather_accesses
gather_accesses-old by_id i k [] u id le c = c
gather_accesses-old by_id i k (a ∷ accesses) u id le c =
    gather_accesses-old by_id i k accesses (gather_access by_id i a u) id le
      (gather_access-old by_id i k a u id le c)

gather_accesses-Covers :
    (by_id : ℕ → ResourceNode) (i : ℕ) (before : List ResourceAccess) (a : ResourceAccess)
    (after : List ResourceAccess) (u : ℕ → Life)
    → is_external (by_id a.handle.id) ≡ false
    → IsLives i u
    → Covers i (gather_accesses by_id i (before ++ a ∷ after) u a.handle.id)
unfolding gather_accesses
gather_accesses-Covers by_id i [] a after u own v =
    gather_accesses-old by_id i i after (gather_access by_id i a u) a.handle.id (omega arith)
      (gather_access-Covers by_id i a u own v)
gather_accesses-Covers by_id i (x ∷ before) a after u own v =
    gather_accesses-Covers by_id i before a after (gather_access by_id i x u) own
      (gather_access-IsLives by_id i x u v)

IsLives-suc : (i : ℕ) (u : ℕ → Life) → IsLives i u → IsLives (suc i) u
unfolding IsLives
IsLives-suc i u v id = record {
  order = (v id).order;
  ended = λ f e. omega (arith, (v id).ended f e);
}

gather_passes-old :
    (by_id : ℕ → ResourceNode) (i k : ℕ) (passes : List PassNode) (u : ℕ → Life) (id : ℕ)
    → k ≤ i
    → Covers k (u id)
    → Covers k (gather_passes by_id i passes u id)
unfolding gather_passes
gather_passes-old by_id i k [] u id le c = c
gather_passes-old by_id i k (p ∷ passes) u id le c =
    gather_passes-old by_id (suc i) k passes (gather_accesses by_id i p.accesses u) id (omega arith)
      (gather_accesses-old by_id i k p.accesses u id le c)

gather_passes-Covers :
    (by_id : ℕ → ResourceNode) (i : ℕ) (pre : List PassNode) (p : PassNode) (post : List PassNode)
    (before : List ResourceAccess) (a : ResourceAccess) (after : List ResourceAccess) (u : ℕ → Life)
    → p.accesses ≡ before ++ a ∷ after
    → is_external (by_id a.handle.id) ≡ false
    → IsLives i u
    → Covers (i + length pre) (gather_passes by_id i (pre ++ p ∷ post) u a.handle.id)
unfolding gather_passes
gather_passes-Covers by_id i [] p post before a after u split own v =
    subst
      (λ k.
        Covers k
          (gather_passes by_id (suc i) post (gather_accesses by_id i p.accesses u) a.handle.id))
      (omega arith)
      (gather_passes-old by_id (suc i) i post (gather_accesses by_id i p.accesses u) a.handle.id
        (omega arith)
        (subst (λ l. Covers i (gather_accesses by_id i l u a.handle.id)) (sym split)
          (gather_accesses-Covers by_id i before a after u own v)))
gather_passes-Covers by_id i (x ∷ pre) p post before a after u split own v =
    let u' = gather_accesses by_id i x.accesses u in
    subst (λ k. Covers k (gather_passes by_id (suc i) (pre ++ p ∷ post) u' a.handle.id))
      (omega arith)
      (gather_passes-Covers by_id (suc i) pre p post before a after u' split own
        (IsLives-suc i u' (gather_accesses-IsLives by_id i x.accesses u v)))

-- Before the pass `i`: a lifetime ended at an earlier pass.
IsBefore : ℕ → (ℕ → Life) → Type 0
IsBefore i u =
    (id first : ℕ)
    → (u id).first_use ≡ some first
    → (first ≤ (u id).last_use) × ((u id).last_use < i)

gather_accesses-IsBefore :
    (by_id : ℕ → ResourceNode) (i : ℕ) (accesses : List ResourceAccess) (u : ℕ → Life)
    → IsBefore i u
    → IsBefore (suc i) (gather_accesses by_id i accesses u)
unfolding IsBefore IsLives
gather_accesses-IsBefore by_id i accesses u v id first e =
    let after =
      gather_accesses-IsLives by_id i accesses u
        (λ j. record { order = λ f h. (v j f h).0; ended = λ f h. omega (arith, (v j f h).1) })
        id in
    (after.order first e, omega (arith, after.ended first e))

gather_passes-IsBefore :
    (by_id : ℕ → ResourceNode) (i : ℕ) (passes : List PassNode) (u : ℕ → Life)
    → IsBefore i u
    → IsBefore (i + length passes) (gather_passes by_id i passes u)
unfolding gather_passes
gather_passes-IsBefore by_id i [] u v = subst (λ j. IsBefore j u) (omega arith) v
gather_passes-IsBefore by_id i (p ∷ passes) u v =
    let u' = gather_accesses by_id i p.accesses u in
    subst (λ j. IsBefore j (gather_passes by_id (suc i) passes u')) (omega arith)
      (gather_passes-IsBefore by_id (suc i) passes u'
        (gather_accesses-IsBefore by_id i p.accesses u v))

no_life-IsLives : IsLives 0 (λ _. no_life)
unfolding IsLives no_life
no_life-IsLives id = record { order = λ f e. absurd (cc); ended = λ f e. absurd (cc) }

-- For any passes, the lifetime of a resource that has one starts no later than it ends, and ends at a pass of the schedule.
pub lifetimes-order :
    (by_id : ℕ → ResourceNode) (passes : List PassNode) (id first : ℕ)
    → (lifetimes by_id passes id).first_use ≡ some first
    → (first ≤ (lifetimes by_id passes id).last_use)
      × ((lifetimes by_id passes id).last_use < length passes)
unfolding lifetimes IsBefore no_life
lifetimes-order by_id passes id first e =
    let (order, ended) =
      gather_passes-IsBefore by_id 0 passes (λ _. no_life) (λ j f h. absurd (cc)) id first e in
    (order, omega (arith, ended))

-- When a pass at some place of the schedule accesses a resource that the graph owns, the lifetime that the walk records for the resource is open and holds that place.
pub lifetimes-Covers :
    (by_id : ℕ → ResourceNode) (pre : List PassNode) (p : PassNode) (post : List PassNode)
    (before : List ResourceAccess) (a : ResourceAccess) (after : List ResourceAccess)
    → p.accesses ≡ before ++ a ∷ after
    → is_external (by_id a.handle.id) ≡ false
    → Covers (length pre) (lifetimes by_id (pre ++ p ∷ post) a.handle.id)
unfolding lifetimes
lifetimes-Covers by_id pre p post before a after split own =
    subst (λ k. Covers k (lifetimes by_id (pre ++ p ∷ post) a.handle.id)) (omega arith)
      (gather_passes-Covers by_id 0 pre p post before a after (λ _. no_life) split own
        no_life-IsLives)
