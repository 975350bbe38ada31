-- ===== src/Tile/Cache/Latest.antt =====
-- What purge leaves are the items that were visited last.
use alpenite.Prelude.{
  ℕ, ◌+◌, ◌≤◌, ◌<◌, ◌≡◌, ◌≢◌, refl, sym, subst, ap, ◌∙◌, arith, false, none, some, some-injective,
  some≢none, ◌⊎◌, inl, inr, if_pos, if_neg, List, [], ◌∷◌, ◌++◌, All, All-map, All-zip, length,
  take, drop, take-drop, length-drop, leb, lookup, remove, IsDistinctKeys, lookup-remove_self,
  lookup-remove_ne, length-remove, remove-IsDistinctKeys, All-lookup, lookup-split, lookup_first,
  lookup_member, le→leb, All-append_right,
}
use alpenite.Tile.Ids.{Ids}
use alpenite.Tile.Cache.Defs.{CacheObject, Cache}
use alpenite.Tile.Cache.Purge.{ranks, take_out, purge, IsSplit}

module _ (radix : Ids) {T : Type 0} (id_of : T → radix.TileId) where
  abbrev Item : Type 0
  Item = radix.TileId × CacheObject T

  abbrev Rank : Type 0
  Rank = radix.TileId × ℕ

  record IsOut (vs : List Rank) (items after : List Item) : Type 0 where
    counted : length after + length vs ≡ length items
    others :
        (k : radix.TileId)
        → All (λ e. e.0 ≢ k) vs
        → lookup radix.id_discrete after k ≡ lookup radix.id_discrete items k
    gone : All (λ e. lookup radix.id_discrete after e.0 ≡ none) vs

  abbrev IsThere : List Item → Rank → Type 0
  IsThere items e = (o : CacheObject T) × (lookup radix.id_discrete items e.0 ≡ some o)

  take_out_lem :
      (vs : List Rank) (items : List Item)
      → IsDistinctKeys radix.id_discrete vs
      → IsDistinctKeys radix.id_discrete items
      → All (IsThere items) vs
      → IsOut vs items (take_out radix id_of vs items).1
  unfolding take_out
  take_out_lem [] items d k t = record { counted = omega arith; others = λ k _. refl; gone = tt }
  take_out_lem ((id, visited) ∷ vs) items d k t =
      let smaller = remove radix.id_discrete items id in
      let still =
        All-zip (λ e. e.0 ≢ id) (IsThere items) (IsThere smaller) vs
          (λ e ne there.
            (there.0, lookup-remove_ne radix.id_discrete items id e.0 (λ p. ne (sym p)) ∙ there.1))
          d.0 t.1 in
      let rest =
        take_out_lem vs smaller d.1 (remove-IsDistinctKeys radix.id_discrete items id k) still in
      let one = length-remove radix.id_discrete items id t.0.0 k t.0.1 in
      record {
        counted = omega (arith, rest.counted, one);
        others = λ j apart.
            rest.others j apart.1 ∙ lookup-remove_ne radix.id_discrete items id j apart.0;
        gone = (rest.others id d.0 ∙ lookup-remove_self radix.id_discrete items id, rest.gone);
      }

  lookup-ranks :
      (items : List Item) (k : radix.TileId) (o : CacheObject T)
      → lookup radix.id_discrete items k ≡ some o
      → lookup radix.id_discrete (ranks radix id_of items) k ≡ some o.meta.visited
  unfolding ranks lookup
  lookup-ranks [] k o h = absurd (some≢none (sym h))
  lookup-ranks ((j, w) ∷ items) k o h = elim (radix.id_discrete j k) [
    | yes p ↦
        let same = some-injective w o (
          sym (if_pos (radix.id_discrete j k) p (some w) (lookup radix.id_discrete items k)) ∙ h) in
        if_pos (radix.id_discrete j k) p (some w.meta.visited)
          (lookup radix.id_discrete (ranks radix id_of items) k)
        ∙ ap (λ (x : CacheObject T). some x.meta.visited) same
    | no n ↦
        if_neg (radix.id_discrete j k) n (some w.meta.visited)
          (lookup radix.id_discrete (ranks radix id_of items) k)
        ∙ lookup-ranks items k o
            (sym (if_neg (radix.id_discrete j k) n (some w) (lookup radix.id_discrete items k)) ∙ h)
  ]

  ranks-lookup :
      (items : List Item) (k : radix.TileId) (v : ℕ)
      → lookup radix.id_discrete (ranks radix id_of items) k ≡ some v
      → (o : CacheObject T) × (lookup radix.id_discrete items k ≡ some o)
  unfolding ranks lookup
  ranks-lookup [] k v h = absurd (some≢none (sym h))
  ranks-lookup ((j, w) ∷ items) k v h = elim (radix.id_discrete j k) [
    | yes p ↦ (w, if_pos (radix.id_discrete j k) p (some w) (lookup radix.id_discrete items k))
    | no n ↦
        let (o, there) = ranks-lookup items k v (
          sym (
            if_neg (radix.id_discrete j k) n (some w.meta.visited)
              (lookup radix.id_discrete (ranks radix id_of items) k))
          ∙ h) in
        (o, if_neg (radix.id_discrete j k) n (some w) (lookup radix.id_discrete items k) ∙ there)
  ]

  length-ranks : (items : List Item) → length (ranks radix id_of items) ≡ length items
  unfolding ranks
  length-ranks [] = refl
  length-ranks ((j, w) ∷ items) = omega (arith, length-ranks items)

  -- What a purge down to `n` items leaves of a map.
  pub record IsPurged (n : ℕ) (items after : List Item) : Type 0 where
    pub capacity : length after ≡ n
    pub unchanged :
        (k : radix.TileId) (o : CacheObject T)
        → lookup radix.id_discrete after k ≡ some o
        → lookup radix.id_discrete items k ≡ some o
    pub latest :
        (k j : radix.TileId) (o p : CacheObject T)
        → lookup radix.id_discrete after k ≡ some o
        → lookup radix.id_discrete items j ≡ some p
        → lookup radix.id_discrete after j ≡ none
        → p.meta.visited ≤ o.meta.visited

  absent_or :
      (vs : List Rank) (k : radix.TileId)
      → (All (λ e. e.0 ≢ k) vs) ⊎ ((v : ℕ) × (lookup radix.id_discrete vs k ≡ some v))
  unfolding lookup
  absent_or [] k = inl tt
  absent_or ((j, w) ∷ vs) k = elim (radix.id_discrete j k) [
    | yes p ↦ inr (w, if_pos (radix.id_discrete j k) p (some w) (lookup radix.id_discrete vs k))
    | no n ↦ elim (absent_or vs k) [
      | inl apart ↦ inl (n, apart)
      | inr (v, e) ↦
          inr (v, if_neg (radix.id_discrete j k) n (some w) (lookup radix.id_discrete vs k) ∙ e)
    ]
  ]

  split_lem :
      (n : ℕ) (items : List Item) (first vs : List Rank)
      → IsDistinctKeys radix.id_discrete (first ++ vs)
      → ((k : radix.TileId)
          → lookup radix.id_discrete (first ++ vs) k
            ≡ lookup radix.id_discrete (ranks radix id_of items) k)
      → All (λ a. All (λ b. b.1 ≤ a.1) vs) first
      → length items ≡ n + length vs
      → IsOut vs items (take_out radix id_of vs items).1
      → IsPurged n items (take_out radix id_of vs items).1
  split_lem n items first vs d same ordered size out =
      let after = (take_out radix id_of vs items).1 in
      let stays : (k : radix.TileId) (o : CacheObject T)
          → lookup radix.id_discrete after k ≡ some o
          → lookup radix.id_discrete items k ≡ some o =
        λ k o h. elim (absent_or vs k) [
          | inl apart ↦ sym (out.others k apart) ∙ h
          | inr (v, e) ↦ absurd (
              some≢none (
                sym h
                ∙ All-lookup radix.id_discrete (λ x. lookup radix.id_discrete after x.0 ≡ none) vs k
                    v out.gone e))
        ] in
      record {
        capacity = omega (arith, out.counted, size);
        unchanged = stays;
        latest = λ k j o p hk hj out_j.
            let at_k =
              lookup-split radix.id_discrete first vs k o.meta.visited
                (same k ∙ lookup-ranks items k o (stays k o hk)) in
            let at_j =
              lookup-split radix.id_discrete first vs j p.meta.visited
                (same j ∙ lookup-ranks items j p hj) in
            elim at_k [
              | inr late ↦ absurd (
                  some≢none (
                    sym hk
                    ∙ All-lookup radix.id_discrete (λ x. lookup radix.id_discrete after x.0 ≡ none)
                        vs k o.meta.visited out.gone late))
              | inl early ↦ elim at_j [
                | inl first_j ↦ absurd (
                    some≢none (
                      sym hj
                      ∙ sym (
                          out.others j
                            (lookup_first radix.id_discrete first vs j p.meta.visited d first_j))
                      ∙ out_j))
                | inr late_j ↦
                    All-lookup radix.id_discrete (λ b. b.1 ≤ o.meta.visited) vs j p.meta.visited
                      (All-lookup radix.id_discrete (λ a. All (λ b. b.1 ≤ a.1) vs) first k
                        o.meta.visited ordered early)
                      late_j
              ]
            ];
      }

  distinct_right :
      (xs ys : List Rank)
      → IsDistinctKeys radix.id_discrete (xs ++ ys)
      → IsDistinctKeys radix.id_discrete ys
  distinct_right [] ys d = d
  distinct_right (x ∷ xs) ys d = distinct_right xs ys d.1

  -- A purge of a cache within its capacity changes nothing. Of a larger one it leaves exactly as many items as the capacity, none of them changed, and none of them visited before one that it took out, where no two items have one id and nth_element splits them as documented.
  pub purge_lem :
      (nth_element : ℕ → List Rank → List Rank) (n : ℕ) (c : Cache radix id_of)
      → IsDistinctKeys radix.id_discrete c.m_data
      → IsSplit radix id_of n
          (ranks radix id_of c.m_data)
          (nth_element n (ranks radix id_of c.m_data))
      → (length c.m_data ≤ n → purge radix id_of nth_element n c ≡ ([], c))
        × (n < length c.m_data → IsPurged n c.m_data (purge radix id_of nth_element n c).1.m_data)
  unfolding purge
  purge_lem nth_element n c d v =
      let ys = nth_element n (ranks radix id_of c.m_data) in
      let whole = take-drop n ys in
      let members : All (λ e. lookup radix.id_discrete ys e.0 ≡ some e.1) (take n ys ++ drop n ys) =
        subst (All (λ e. lookup radix.id_discrete ys e.0 ≡ some e.1)) (sym whole)
          (lookup_member radix.id_discrete ys v.one_key) in
      let there =
        All-map (λ e. lookup radix.id_discrete ys e.0 ≡ some e.1) (IsThere c.m_data) (drop n ys)
          (λ e h. ranks-lookup c.m_data e.0 e.1 (sym (v.same_items e.0) ∙ h))
          (All-append_right (λ e. lookup radix.id_discrete ys e.0 ≡ some e.1) (take n ys)
            (drop n ys) members) in
      let distinct = subst (IsDistinctKeys radix.id_discrete) (sym whole) v.one_key in
      let sizes = length-ranks c.m_data in
      (
        (λ small. rw (le→leb (length c.m_data) n small, purge) refl),
        (λ large.
            let over : leb (length c.m_data) n ≡ false = ground arith in
            let room = length-drop n ys (omega (arith, v.same_length, sizes)) in
            rw (over, purge)
              (split_lem n c.m_data (take n ys) (drop n ys) distinct
                (λ k. ap (λ x. lookup radix.id_discrete x k) whole ∙ v.same_items k) v.ordered
                (omega (arith, room, v.same_length, sizes))
                (take_out_lem (drop n ys) c.m_data (distinct_right (take n ys) (drop n ys) distinct)
                  d there))),
      )
