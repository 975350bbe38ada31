-- ===== src/RenderGraph/Alias/Disjoint.antt =====
-- Resources of one slot do not meet.
use alpenite.Prelude.{
  ℕ, ◌≤◌, ◌<◌, ◌≡◌, refl, ◌≢◌, Bool, false, some, List, [], ◌∷◌, ◌++◌, sym, ◌∙◌, ap, subst, arith,
  All, map, some-injective, length, append_assoc,
}
use alpenite.RenderGraph.Access.{ResourceAccess}
use alpenite.RenderGraph.Nodes.{PassNode}
use alpenite.RenderGraph.Resources.{ResourceNode, Extent, is_external}
use alpenite.RenderGraph.Lifetimes.{lifetimes}
use alpenite.RenderGraph.Lifetimes.Cover.{lifetimes-order, lifetimes-Covers}
use alpenite.RenderGraph.Lifetimes.Touch.{Covers}
use alpenite.RenderGraph.Alias.Defs.{
  Eligible, PhysicalResource, Placed, gather_eligible, stable_sort, place, place_all, assign_slots,
}
use alpenite.RenderGraph.Alias.Filter.{IsFit, IsFrom, stable_sort-All, gather_eligible-IsFit}
use alpenite.RenderGraph.Alias.Slots.{IsAlike, Lives}
use alpenite.RenderGraph.Alias.Place.{place-Lives, place-old, place-meets}

-- In one slot the later resource starts after the earlier ends.
abbrev pub Apart : Placed → Placed → Type 0
Apart x y = x.slot ≡ y.slot → IsAlike x.node y.node × (x.node.last_use < y.node.first_use)

abbrev AllApart : List Placed → Type 0
AllApart [] = Unit {0}
AllApart (x ∷ xs) = All (Apart x) xs × AllApart xs

-- The slots for all of a list: no internal error, a slot for each resource in turn, and what lives
-- in a slot before is apart from what is placed there.
place_all-AllApart :
    (slots : List PhysicalResource) (rs : List Eligible)
    → All IsFit rs
    → (ps : List Placed) × (place_all slots rs ≡ some ps)
      × (map (λ (p : Placed). p.node) ps ≡ rs)
      × AllApart ps
      × ((x : Placed) → Lives x.node slots x.slot → All (Apart x) ps)
unfolding place_all
place_all-AllApart slots [] fit = ([], refl, refl, tt, λ x lives. tt)
place_all-AllApart slots (r ∷ rs) (fit, fits) =
    let (ps, e, nodes, apart, old) = place_all-AllApart (place slots r).0 rs fits in
    let y : Placed = record { node = r; slot = (place slots r).1 } in
    (
      y ∷ ps,
      rw (fit.proper, e) refl,
      ap (λ l. r ∷ l) nodes,
      (old y (place-Lives slots r), apart),
      λ x lives. (
        λ same. place-meets slots r x.node (subst (Lives x.node slots) same lives),
        old x (place-old slots r x.node x.slot fit.ordered lives),
      ),
    )

All-map :
    {P Q : Eligible → Type 0}
    → ((e : Eligible) → P e → Q e)
    → (es : List Eligible) → All P es
    → All Q es
All-map f [] h = tt
All-map f (e ∷ es) (h, hs) = (f e h, All-map f es hs)

All-at :
    (P : Placed → Type 0) (pre : List Placed) (x : Placed) (post : List Placed)
    → All P (pre ++ x ∷ post)
    → P x
All-at P [] x post h = h.0
All-at P (y ∷ pre) x post h = All-at P pre x post h.1

AllApart-at :
    (pre : List Placed) (x : Placed) (post : List Placed)
    → AllApart (pre ++ x ∷ post)
    → AllApart (x ∷ post)
AllApart-at [] x post h = h
AllApart-at (y ∷ pre) x post h = AllApart-at pre x post h.1

All-nodes :
    (P : Eligible → Type 0) (ps : List Placed)
    → All P (map (λ (p : Placed). p.node) ps)
    → All (λ (p : Placed). P p.node) ps
All-nodes P [] h = tt
All-nodes P (p ∷ ps) (h, hs) = (h, All-nodes P ps hs)

module _ (resolved : ℕ → Extent) (by_id : ℕ → ResourceNode) (transient : ℕ → Bool)
    (passes : List PassNode) (resources : List ResourceNode) where
  -- The resources that are given a slot, in turn.
  abbrev pub sorted_eligible : List Eligible
  sorted_eligible =
      stable_sort (gather_eligible resolved (lifetimes by_id passes) transient resources)

  ends_later :
      (id first : ℕ)
      → (lifetimes by_id passes id).first_use ≡ some first
      → first ≤ (lifetimes by_id passes id).last_use
  ends_later id first e = (lifetimes-order by_id passes id first e).0

  eligible-All : All (λ e. IsFit e × IsFrom (lifetimes by_id passes) ends_later e) sorted_eligible
  eligible-All =
      stable_sort-All (λ e. IsFit e × IsFrom (lifetimes by_id passes) ends_later e) _
        (gather_eligible-IsFit (lifetimes by_id passes) ends_later resolved transient resources)

  -- The internal error of phase 4 never comes up: every eligible resource is given a slot, in the order of the first uses.
  pub assign_slots-total :
      (ps : List Placed) × (assign_slots resolved (lifetimes by_id passes) transient resources
        ≡ some ps)
      × (map (λ (p : Placed). p.node) ps ≡ sorted_eligible)
  unfolding assign_slots
  assign_slots-total =
      let (ps, e, nodes, _, _) =
        place_all-AllApart [] sorted_eligible (All-map (λ e h. h.0) _ eligible-All) in
      (ps, e, nodes)

  -- Let phase 4 run on the lifetimes that phase 3 records. Of two resources that it puts into one slot, the one that is placed earlier has the kind and the signature (a buffer: the size) of the other, and its last use comes before the first use of the other.
  pub slots-Apart :
      (pre mid post : List Placed) (x y : Placed)
      → assign_slots resolved (lifetimes by_id passes) transient resources
        ≡ some (pre ++ x ∷ (mid ++ y ∷ post))
      → x.slot ≡ y.slot
      → IsAlike x.node y.node × (x.node.last_use < y.node.first_use)
  unfolding assign_slots
  slots-Apart pre mid post x y e same =
      let (ps, run, _, apart, _) =
        place_all-AllApart [] sorted_eligible (All-map (λ e h. h.0) _ eligible-All) in
      let all : AllApart (pre ++ x ∷ (mid ++ y ∷ post)) =
        subst AllApart (some-injective _ _ (sym run ∙ e)) apart in
      All-at (Apart x) mid y post (AllApart-at pre x (mid ++ y ∷ post) all).0 same

  placed-IsFrom :
      (pre : List Placed) (x : Placed) (post : List Placed)
      → assign_slots resolved (lifetimes by_id passes) transient resources ≡ some (pre ++ x ∷ post)
      → IsFrom (lifetimes by_id passes) ends_later x.node
  placed-IsFrom pre x post e =
      let (ps, run, nodes) = assign_slots-total in
      let all : All (λ (p : Placed). IsFrom (lifetimes by_id passes) ends_later p.node) ps =
        All-nodes _ ps (
          subst (All (IsFrom (lifetimes by_id passes) ends_later)) (sym nodes)
            (All-map (λ e h. h.1) _ eligible-All)) in
      All-at (λ (p : Placed). IsFrom (lifetimes by_id passes) ends_later p.node) pre x post
        (subst (All (λ (p : Placed). IsFrom (lifetimes by_id passes) ends_later p.node))
          (some-injective _ _ (sym run ∙ e)) all)

  touched :
      (pre : List Placed) (x : Placed) (post : List Placed) (k : ℕ)
      → assign_slots resolved (lifetimes by_id passes) transient resources ≡ some (pre ++ x ∷ post)
      → Covers k (lifetimes by_id passes x.node.id)
      → (x.node.first_use ≤ k) × (k ≤ x.node.last_use)
  touched pre x post k e c =
      let from = placed-IsFrom pre x post e in
      (
        omega (arith, some-injective _ _ (sym c.opened ∙ from.first), c.after_first),
        omega (arith, from.last, c.before_last),
      )

-- What a pass of the schedule does to a resource that the graph owns.
pub record Accesses (by_id : ℕ → ResourceNode) (p : PassNode) (id : ℕ) : Type 0 where
  pub before : List ResourceAccess
  pub access : ResourceAccess
  pub after : List ResourceAccess
  pub split : p.accesses ≡ before ++ access ∷ after
  pub names : access.handle.id ≡ id
  pub owned : is_external (by_id access.handle.id) ≡ false

-- No pass of the schedule accesses two resources of the graph's own that share a slot, so within a pass a physical object stands for one resource only.
pub slots-exclusive :
    (resolved : ℕ → Extent) (by_id : ℕ → ResourceNode) (transient : ℕ → Bool)
    (resources : List ResourceNode) (first : List PassNode) (p : PassNode) (last : List PassNode)
    (pre mid post : List Placed) (x y : Placed)
    → assign_slots resolved (lifetimes by_id (first ++ p ∷ last)) transient resources
      ≡ some (pre ++ x ∷ (mid ++ y ∷ post))
    → Accesses by_id p x.node.id
    → Accesses by_id p y.node.id
    → x.slot ≢ y.slot
slots-exclusive resolved by_id transient resources first p last pre mid post x y e a b same =
    let passes = first ++ p ∷ last in
    let there : (id : ℕ) → Accesses by_id p id → Covers (length first) (lifetimes by_id passes id) =
      λ id c.
        subst (λ i. Covers (length first) (lifetimes by_id passes i)) c.names
          (lifetimes-Covers by_id first p last c.before c.access c.after c.split c.owned) in
    let at_x =
      touched resolved by_id transient passes resources pre x (mid ++ y ∷ post) (length first) e
        (there x.node.id a) in
    let at_y =
      touched resolved by_id transient passes resources (pre ++ x ∷ mid) y post (length first)
        (e ∙ ap some (sym (append_assoc pre (x ∷ mid) (y ∷ post)))) (there y.node.id b) in
    let apart = slots-Apart resolved by_id transient passes resources pre mid post x y e same in
    omega (arith, at_x.1, at_y.0, apart.1)
