-- ===== src/Tile/Cache/Visit.antt =====
-- visit: the walk down the quad tree from its root, over the tiles that are in memory and that the
-- functor accepts. The functor is a predicate on tiles; what it records besides is left out. The
-- recursion runs on fuel, a unit for each level of the tree.
use alpenite.Prelude.{
  ℕ, zero, suc, ◌+◌, ◌≤◌, ◌≡◌, refl, sym, subst, ap, ◌∙◌, arith, Bool, true, Option, none, some,
  ◌⊎◌, inl, inr, List, [], ◌∷◌, All, All-map, Bool-cases, Option-cases, if◌then◌else◌, lookup,
  assign, lookup-assign_self, lookup-assign_ne, All-lookup,
}
use Prim.Native.Nat.{max}
use alpenite.Tile.Ids.{Ids, IsQuadTree}
use alpenite.Tile.Cache.Defs.{CacheObject, Cache, stamp}

module _ (radix : Ids) {T : Type 0} (id_of : T → radix.TileId) where
  abbrev Item : Type 0
  Item = radix.TileId × CacheObject T

  -- `meta.visited = visited_stamp * 100 - zoom_level`.
  unfoldable pub mark_visited : ℕ → CacheObject T → CacheObject T
  unfolding stamp
  mark_visited time o = record o {
    meta = record o.meta { visited = stamp time (radix.zoom_level (id_of o.tile)) };
  }

  -- The loop over the children, with the visit of one of them.
  unfoldable pub visit_all :
      (radix.TileId → List Item → Option (List Item))
      → List radix.TileId
      → List Item
      → Option (List Item)
  visit_all visit_child [] items = some items
  visit_all visit_child (id ∷ ids) items = elim (visit_child id items) [
    | none ↦ none
    | some items' ↦ visit_all visit_child ids items'
  ]

  -- none: out of fuel.
  unfoldable pub visit_node : ℕ → (T → Bool) → ℕ → radix.TileId → List Item → Option (List Item)
  unfolding mark_visited visit_all
  visit_node zero functor time node items = none
  visit_node (suc n) functor time node items = elim (lookup radix.id_discrete items node) [
    | none ↦ some items
    | some o ↦
        if functor o.tile
        then visit_all (visit_node n functor time) (radix.children node)
            (assign radix.id_discrete items node (mark_visited time o))
        else some items
  ]

  unfoldable pub max_level : List Item → ℕ
  max_level [] = 0
  max_level ((id, o) ∷ items) = max (radix.zoom_level id) (max_level items)

  unfoldable pub visit : (T → Bool) → ℕ → Cache radix id_of → Option (Cache radix id_of)
  unfolding visit_node max_level
  visit functor time c =
      elim (visit_node (max_level c.m_data + 2) functor time radix.root c.m_data) [
        | none ↦ none
        | some items ↦ some (record c { m_data = items })
      ]

  -- An item before and after a visit: it holds the same tile, and its time of visit is as before, or
  -- the one of this visit where the functor accepts the tile.
  abbrev pub IsTouched : (T → Bool) → ℕ → Option (CacheObject T) → Option (CacheObject T) → Type 0
  IsTouched functor time none none = Unit
  IsTouched functor time none (some p) = ⊥
  IsTouched functor time (some o) none = ⊥
  IsTouched functor time (some o) (some p) =
      (p.tile ≡ o.tile)
      × (p.meta.created ≡ o.meta.created)
      × ((p.meta.visited ≡ o.meta.visited)
          ⊎ ((functor o.tile ≡ true)
              × (p.meta.visited ≡ stamp time (radix.zoom_level (id_of o.tile)))))

  abbrev pub AreTouched : (T → Bool) → ℕ → List Item → List Item → Type 0
  AreTouched functor time items after =
      (k : radix.TileId)
      → IsTouched functor time (lookup radix.id_discrete items k) (lookup radix.id_discrete after k)

  IsTouched-refl :
      (functor : T → Bool) (time : ℕ) (o : Option (CacheObject T)) → IsTouched functor time o o
  IsTouched-refl functor time none = tt
  IsTouched-refl functor time (some o) = (refl, refl, inl refl)

  IsTouched-trans :
      (functor : T → Bool) (time : ℕ) (o p q : Option (CacheObject T))
      → IsTouched functor time o p
      → IsTouched functor time p q
      → IsTouched functor time o q
  IsTouched-trans functor time none none none h k = tt
  IsTouched-trans functor time none none (some q) h k = absurd k
  IsTouched-trans functor time none (some p) q h k = absurd h
  IsTouched-trans functor time (some o) none q h k = absurd h
  IsTouched-trans functor time (some o) (some p) none h k = absurd k
  IsTouched-trans functor time (some o) (some p) (some q) (t, c, v) (t', c', v') = (
    t' ∙ t,
    c' ∙ c,
    elim v' [
      | inr (f, e) ↦ inr (
        subst (λ x. functor x ≡ true) t f,
        e ∙ ap (λ x. stamp time (radix.zoom_level (id_of x))) t,
      )
      | inl e ↦ elim v [ inl d ↦ inl (e ∙ d) | inr (f, d) ↦ inr (f, e ∙ d) ]
    ],
  )

  mark_touched :
      (functor : T → Bool) (time : ℕ) (node : radix.TileId) (o : CacheObject T) (items : List Item)
      → lookup radix.id_discrete items node ≡ some o
      → functor o.tile ≡ true
      → AreTouched functor time items (assign radix.id_discrete items node (mark_visited time o))
  unfolding mark_visited
  mark_touched functor time node o items h f k = elim (radix.id_discrete node k) [
    | yes p ↦
        let before : lookup radix.id_discrete items k ≡ some o =
          subst (λ x. lookup radix.id_discrete items x ≡ some o) p h in
        let after : lookup radix.id_discrete
              (assign radix.id_discrete items node (mark_visited time o)) k
            ≡ some (mark_visited time o) =
          subst
            (λ x.
              lookup radix.id_discrete (assign radix.id_discrete items node (mark_visited time o)) x
              ≡ some (mark_visited time o))
            p (lookup-assign_self radix.id_discrete items node (mark_visited time o)) in
        let marked : IsTouched functor time (some o) (some (mark_visited time o)) =
          (refl, refl, inr (f, refl)) in
        subst
          (λ x. IsTouched functor time x (
            lookup radix.id_discrete (assign radix.id_discrete items node (mark_visited time o)) k))
          (sym before) (subst (IsTouched functor time (some o)) (sym after) marked)
    | no n ↦
        subst (IsTouched functor time (lookup radix.id_discrete items k))
          (sym (lookup-assign_ne radix.id_discrete items node k (mark_visited time o) n))
          (IsTouched-refl functor time (lookup radix.id_discrete items k))
  ]

  -- The levels of the ids in memory are at most `m`.
  abbrev IsBounded : ℕ → List Item → Type 0
  IsBounded m items =
      (k : radix.TileId) (o : CacheObject T)
      → lookup radix.id_discrete items k ≡ some o
      → radix.zoom_level k ≤ m

  touched-IsBounded :
      (functor : T → Bool) (time m : ℕ) (items after : List Item)
      → AreTouched functor time items after
      → IsBounded m items
      → IsBounded m after
  touched-IsBounded functor time m items after t b k o h =
      elim (Option-cases (lookup radix.id_discrete items k)) [
        | inr (p, e) ↦ b k p e
        | inl e ↦
            let none_some : IsTouched functor time none (some o) =
              subst (IsTouched functor time none) h (
                subst (λ x. IsTouched functor time x (lookup radix.id_discrete after k)) e (t k)) in
            absurd none_some
      ]

  abbrev IsVisited : (T → Bool) → ℕ → List Item → Option (List Item) → Type 0
  IsVisited functor time items out =
      (after : List Item) × ((out ≡ some after) × AreTouched functor time items after)

  visit_all_lem :
      (functor : T → Bool) (time m level : ℕ) (go : radix.TileId → List Item → Option (List Item))
      (ids : List radix.TileId) (items : List Item)
      → ((id : radix.TileId) (now : List Item)
          → radix.zoom_level id ≡ level
          → IsBounded m now
          → IsVisited functor time now (go id now))
      → All (λ id. radix.zoom_level id ≡ level) ids
      → IsBounded m items
      → IsVisited functor time items (visit_all go ids items)
  unfolding visit_all
  visit_all_lem functor time m level go [] items step h b =
      (items, (refl, λ k. IsTouched-refl functor time (lookup radix.id_discrete items k)))
  visit_all_lem functor time m level go (id ∷ ids) items step h b =
      let (now, (e, t)) = step id items h.0 b in
      let (after, (f, u)) =
        visit_all_lem functor time m level go ids now step h.1
          (touched-IsBounded functor time m items now t b) in
      (
        after,
        (
          rw (visit_all, e) f,
          λ k.
              IsTouched-trans functor time (lookup radix.id_discrete items k)
                (lookup radix.id_discrete now k) (lookup radix.id_discrete after k) (t k) (u k),
        ),
      )

  visit_node_lem :
      (functor : T → Bool) (time m n : ℕ) (node : radix.TileId) (items : List Item)
      → IsQuadTree radix
      → 1 ≤ n
      → m + 2 ≤ radix.zoom_level node + n
      → IsBounded m items
      → IsVisited functor time items (visit_node n functor time node items)
  unfolding visit_node
  visit_node_lem functor time m zero node items tree pos fuel b = absurd (omega arith)
  visit_node_lem functor time m (suc n) node items tree pos fuel b =
      let kept : AreTouched functor time items items =
        λ k. IsTouched-refl functor time (lookup radix.id_discrete items k) in
      elim (Option-cases (lookup radix.id_discrete items node)) [
        | inl e ↦ (items, (rw (visit_node, e) refl, kept))
        | inr (o, e) ↦ elim (Bool-cases (functor o.tile)) [
          | inr stop ↦ (items, (rw (visit_node, e, stop) refl, kept))
          | inl on ↦
              let level = b node o e in
              let marked = assign radix.id_discrete items node (mark_visited time o) in
              let first = mark_touched functor time node o items e on in
              let (after, (done, rest)) =
                visit_all_lem functor time m (radix.zoom_level node + 1) (visit_node n functor time)
                  (radix.children node) marked
                  (λ id now same bound.
                    visit_node_lem functor time m n id now tree (omega arith) (omega arith) bound)
                  (tree.levels node) (touched-IsBounded functor time m items marked first b) in
              (
                after,
                (
                  rw (visit_node, e, on) done,
                  λ k.
                      IsTouched-trans functor time (lookup radix.id_discrete items k)
                        (lookup radix.id_discrete marked k) (lookup radix.id_discrete after k)
                        (first k) (rest k),
                ),
              )
        ]
      ]

  max_level_lem : (items : List Item) → All (λ e. radix.zoom_level e.0 ≤ max_level items) items
  unfolding max_level
  max_level_lem [] = tt
  max_level_lem ((id, o) ∷ items) = (
    ground arith,
    All-map (λ e. radix.zoom_level e.0 ≤ max_level items)
        (λ e. radix.zoom_level e.0 ≤ max (radix.zoom_level id) (max_level items)) items
        (λ e h. ground arith) (max_level_lem items),
  )

  -- On a quad tree a visit ends: the levels in memory are enough fuel. It takes no item out and adds none, and changes of an item only its time of visit, to that of this visit, and only where the functor accepts its tile.
  pub visit_lem :
      (functor : T → Bool) (time : ℕ) (c : Cache radix id_of)
      → IsQuadTree radix
      → (d : Cache radix id_of) × ((visit functor time c ≡ some d)
          × AreTouched functor time c.m_data d.m_data)
  unfolding visit
  visit_lem functor time c tree =
      let bounded : IsBounded (max_level c.m_data) c.m_data = λ k o h.
        All-lookup radix.id_discrete (λ e. radix.zoom_level e.0 ≤ max_level c.m_data) c.m_data k o
          (max_level_lem c.m_data) h in
      let (after, (done, touched)) =
        visit_node_lem functor time (max_level c.m_data) (max_level c.m_data + 2) radix.root
          c.m_data tree (omega arith) (omega (arith, tree.root_level)) bounded in
      (record c { m_data = after }, (rw (visit, done) refl, touched))
