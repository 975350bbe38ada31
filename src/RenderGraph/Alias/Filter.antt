-- ===== src/RenderGraph/Alias/Filter.antt =====
-- What passes the filter of phase 4.
use alpenite.Prelude.{
  ℕ, ◌≤◌, ◌≡◌, refl, inl, inr, Bool, true, false, none, some, List, [], ◌∷◌, sym, ◌∙◌, subst,
  if◌then◌else◌, arith, All, Bool-cases, Option-cases, some-injective, ltb,
}
use alpenite.RenderGraph.Resources.{ResourceNode, Extent, is_external, tex_signature}
use alpenite.RenderGraph.Lifetimes.{Life}
use alpenite.RenderGraph.Alias.Defs.{
  Eligible, is_eligible, as_eligible, eligible, gather_eligible, insert_by_first_use, stable_sort,
  is_misplaced, is_plain_texture,
}
use alpenite.RenderGraph.Alias.Slots.{some≢none}

-- What the filter promises of a resource: its lifetime is in order and it is no texture with mips or
-- samples.
pub record IsFit (r : Eligible) : Type 0 where
  pub ordered : r.first_use ≤ r.last_use
  pub proper : is_misplaced r ≡ false

insert-All :
    (P : Eligible → Type 0) (e : Eligible) (es : List Eligible)
    → P e
    → All P es
    → All P (insert_by_first_use e es)
unfolding insert_by_first_use
insert-All P e [] p ps = (p, tt)
insert-All P e (x ∷ xs) p (px, ps) = elim (Bool-cases (ltb x.first_use e.first_use)) [
  | inl b ↦ rw b (px, insert-All P e xs p ps)
  | inr b ↦ rw b (p, (px, ps))
]

pub stable_sort-All :
    (P : Eligible → Type 0) (es : List Eligible) → All P es → All P (stable_sort es)
unfolding stable_sort
stable_sort-All P [] ps = tt
stable_sort-All P (e ∷ es) (p, ps) = insert-All P e (stable_sort es) p (stable_sort-All P es ps)

eligible-first :
    (r : ResourceNode) (x : Extent) (l : Life) (t : Bool) (first : ℕ)
    → l.first_use ≡ some first
    → eligible r x l t ≡ (if is_eligible r x l t then some (as_eligible r x l first) else none)
unfolding eligible
eligible-first r x l t first begun =
    subst
      (λ o.
        (elim o [
          | none ↦ none
          | some f ↦ if is_eligible r x l t then some (as_eligible r x l f) else none
        ])
        ≡ (if is_eligible r x l t then some (as_eligible r x l first) else none))
      (sym begun) refl

eligible-none :
    (r : ResourceNode) (x : Extent) (l : Life) (t : Bool)
    → l.first_use ≡ none
    → eligible r x l t ≡ none
unfolding eligible
eligible-none r x l t shut =
    subst
      (λ o.
        (elim o [
          | none ↦ none
          | some f ↦ if is_eligible r x l t then some (as_eligible r x l f) else none
        ])
        ≡ none)
      (sym shut) refl

eligible_cases :
    (r : ResourceNode) (x : Extent) (l : Life) (t : Bool) (e : Eligible)
    → eligible r x l t ≡ some e
    → (first : ℕ) × (l.first_use ≡ some first)
      × (is_eligible r x l t ≡ true)
      × (as_eligible r x l first ≡ e)
eligible_cases r x l t e h = elim (Option-cases l.first_use) [
  | inl shut ↦ absurd (some≢none (sym h ∙ eligible-none r x l t shut))
  | inr (first, begun) ↦ elim (Bool-cases (is_eligible r x l t)) [
    | inl is ↦ (
      first,
      begun,
      is,
      some-injective (as_eligible r x l first) e
          (sym (eligible-first r x l t first begun ∙ rw is refl) ∙ h),
    )
    | inr isnt ↦ absurd (some≢none (sym h ∙ eligible-first r x l t first begun ∙ rw isnt refl))
  ]
]

misplaced :
    (r : ResourceNode) (x : Extent) (l : Life) (t : Bool) (first : ℕ)
    → is_eligible r x l t ≡ true
    → is_misplaced (as_eligible r x l first) ≡ false
unfolding is_eligible is_misplaced is_plain_texture as_eligible tex_signature
misplaced r x l t first h = ground arith

owned :
    (r : ResourceNode) (x : Extent) (l : Life) (t : Bool)
    → is_eligible r x l t ≡ true
    → is_external r ≡ false
unfolding is_eligible
owned r x l t h = ground arith

module _ (u : ℕ → Life)
    (order : (id first : ℕ) → (u id).first_use ≡ some first → first ≤ (u id).last_use) where
  -- What is eligible has the lifetime that the walk recorded.
  pub record IsFrom (e : Eligible) : Type 0 where
    pub first : (u e.id).first_use ≡ some e.first_use
    pub last : (u e.id).last_use ≡ e.last_use

  eligible-IsFit :
      (r : ResourceNode) (x : Extent) (t : Bool) (e : Eligible)
      → eligible r x (u r.handle.id) t ≡ some e
      → IsFit e × IsFrom e
  unfolding as_eligible
  eligible-IsFit r x t e h =
      let (first, begun, is, same) = eligible_cases r x (u r.handle.id) t e h in
      subst (λ y. IsFit y × IsFrom y) same
        (
          record {
            ordered = order r.handle.id first begun;
            proper = misplaced r x (u r.handle.id) t first is;
          },
          record { first = begun; last = refl },
        )

  pub gather_eligible-IsFit :
      (resolved : ℕ → Extent) (transient : ℕ → Bool) (resources : List ResourceNode)
      → All (λ e. IsFit e × IsFrom e) (gather_eligible resolved u transient resources)
  unfolding gather_eligible
  gather_eligible-IsFit resolved transient [] = tt
  gather_eligible-IsFit resolved transient (r ∷ resources) =
      let rest = gather_eligible-IsFit resolved transient resources in
      elim (Option-cases
        (eligible r (resolved r.handle.id) (u r.handle.id) (transient r.handle.id))) [
          | inl e ↦ rw (e, gather_eligible) rest
          | inr (x, e) ↦ rw (e, gather_eligible) (eligible-IsFit r _ _ x e, rest)
        ]
