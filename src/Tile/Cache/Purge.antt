-- ===== src/Tile/Cache/Purge.antt =====
-- purge: the items that were visited last stay. The choice among them is std::nth_element, a
-- parameter.
use alpenite.Prelude.{
  ℕ, ◌≤◌, ◌≡◌, Option, none, some, List, [], ◌∷◌, ◌++◌, All, length, take, drop, leb, if◌then◌else◌,
  lookup, remove, IsDistinctKeys,
}
use alpenite.Tile.Ids.{Ids}
use alpenite.Tile.Cache.Defs.{CacheObject, Cache}

abbrev pub tile_of : {T : Type 0} → Option (CacheObject T) → List T
tile_of none = []
tile_of (some o) = o.tile ∷ []

module _ (radix : Ids) {T : Type 0} (id_of : T → radix.TileId) where
  abbrev pub Item : Type 0
  Item = radix.TileId × CacheObject T

  -- What nth_element orders: the ids with the times of the last visit.
  abbrev pub Rank : Type 0
  Rank = radix.TileId × ℕ

  unfoldable pub ranks : List Item → List Rank
  ranks [] = []
  ranks ((id, o) ∷ items) = (id, o.meta.visited) ∷ ranks items

  -- The tiles of the ids, and the map without them.
  unfoldable pub take_out : List Rank → List Item → List T × List Item
  take_out [] items = ([], items)
  take_out ((id, visited) ∷ rest) items =
      let after = take_out rest (remove radix.id_discrete items id) in
      (tile_of (lookup radix.id_discrete items id) ++ after.0, after.1)

  unfoldable pub purge :
      (ℕ → List Rank → List Rank) → ℕ → Cache radix id_of → List T × Cache radix id_of
  unfolding ranks take_out
  purge nth_element remaining_capacity c =
      if leb (length c.m_data) remaining_capacity
      then ([], c)
      else let out =
          take_out (drop remaining_capacity (nth_element remaining_capacity (ranks c.m_data)))
            c.m_data in
        (out.0, record c { m_data = out.1 })

  -- What nth_element promises, where no two items have one id: a permutation, with nothing after the
  -- first `n` that was visited later than one of them.
  pub record IsSplit (n : ℕ) (xs ys : List Rank) : Type 0 where
    pub same_length : length ys ≡ length xs
    pub one_key : IsDistinctKeys radix.id_discrete ys
    pub same_items :
        (k : radix.TileId) → lookup radix.id_discrete ys k ≡ lookup radix.id_discrete xs k
    pub ordered : All (λ a. All (λ b. b.1 ≤ a.1) (drop n ys)) (take n ys)
