-- ===== src/Tile/Cache/Insert.antt =====
-- What an insertion does to the cache: its stamps make the next purge keep the tile and the next write
-- to disk write it.
use alpenite.Prelude.{
  ℕ, ◌+◌, ◌*◌, ◌^◌, ◌≤◌, ◌<◌, ◌≡◌, ◌≢◌, refl, sym, ap, ◌∙◌, arith, true, false, some,
  some-injective, some≢none, subst, inl, inr, List, [], ◌∷◌, All, length, if_pos, lookup,
  lookup-assign_self, lookup-assign_ne, All-assign, assign-IsDistinctKeys, All-lookup, Option-cases,
  dec_le, ==_iff,
}
use alpenite.Tile.Ids.{Ids}
use alpenite.Tile.Cache.Defs.{
  MetaData, CacheObject, Cache, insert_tile, peak_at, contains_tile, stamp,
}
use alpenite.Tile.Cache.Disk.{Storage, Files, is_current}
use alpenite.Tile.Cache.Files.{IsStored}
use alpenite.Tile.Cache.RoundTrip.{IsSynced}
use alpenite.Tile.Cache.Purge.{ranks, purge, IsSplit}
use alpenite.Tile.Cache.Latest.{IsPurged, purge_lem}

stamp_late :
    (time zoom visited : ℕ)
    → time * 100 < 2 ^ 64
    → zoom < 100
    → visited + 100 ≤ time * 100
    → visited < stamp time zoom
unfolding stamp
stamp_late time zoom visited fits coarse early = omega arith

module _ (radix : Ids) {T : Type 0} (disk : Storage radix T) where
  -- What an insertion puts into the map.
  abbrev inserted_object : ℕ → T → CacheObject T
  inserted_object time tile = record {
    meta = record { visited = stamp time (radix.zoom_level (disk.id_of tile)); created = time };
    tile = tile;
  }

  -- The tile is in the cache, and is what the calls for its id answer.
  abbrev pub IsKnown : Cache radix disk.id_of → T → Type 0
  IsKnown c tile =
      (peak_at radix disk.id_of c (disk.id_of tile) ≡ some tile)
      × (contains_tile radix disk.id_of c (disk.id_of tile) ≡ true)

  found-IsKnown :
      (c : Cache radix disk.id_of) (time : ℕ) (tile : T)
      → lookup radix.id_discrete c.m_data (disk.id_of tile) ≡ some (inserted_object time tile)
      → IsKnown c tile
  unfolding peak_at contains_tile
  found-IsKnown c time tile e = (rw (peak_at, e) refl, rw (contains_tile, e) refl)

  -- The disk has no copy of the tile from the time of the insertion.
  abbrev pub IsNew : radix.TileId → ℕ → List (radix.TileId × MetaData) → Type 0
  IsNew id time = All (λ e. e.0 ≡ id → e.1.created ≢ time)

  new_not_current :
      (known : List (radix.TileId × MetaData)) (id : radix.TileId) (meta : MetaData)
      → IsNew id meta.created known
      → is_current radix disk known id meta ≢ true
  unfolding is_current
  new_not_current known id meta new h = elim (Option-cases (lookup radix.id_discrete known id)) [
    | inl e ↦ let no_meta : false ≡ true = rw (e, is_current) at h in absurd (cc)
    | inr (m, e) ↦
        All-lookup radix.id_discrete (λ x. x.0 ≡ id → x.1.created ≢ meta.created) known id m new e
          refl ((==_iff m.created meta.created).0 (rw (e, is_current) at h))
  ]

  inserted-IsSynced :
      (time : ℕ) (tile : T) (c : Cache radix disk.id_of) (f : Files radix disk)
      (v : IsSynced radix disk c f)
      → radix.scheme (disk.id_of tile) ≡ v.scheme
      → IsNew (disk.id_of tile) time c.m_disk_cached
      → IsSynced radix disk (insert_tile radix disk.id_of time tile c) f
  unfolding insert_tile
  inserted-IsSynced time tile c f v same new =
      let id = disk.id_of tile in
      let o = inserted_object time tile in
      record {
        one_key = assign-IsDistinctKeys radix.id_discrete c.m_data id o v.one_key;
        one_key_on_disk = v.one_key_on_disk;
        keyed =
            All-assign radix.id_discrete (λ e. disk.id_of e.1.tile ≡ e.0) c.m_data id o v.keyed
              refl;
        scheme = v.scheme;
        one_scheme =
            All-assign radix.id_discrete (λ e. radix.scheme e.0 ≡ v.scheme) c.m_data id o
              v.one_scheme same;
        one_scheme_on_disk = v.one_scheme_on_disk;
        stored =
            All-assign radix.id_discrete
              (λ e.
                is_current radix disk c.m_disk_cached e.0 e.1.meta ≡ true
                → IsStored radix disk f.tile_files e)
              c.m_data id o v.stored
              (λ h. absurd (new_not_current c.m_disk_cached id o.meta new h));
      }

  -- The first item of a map is found.
  first_found :
      (items : List (radix.TileId × CacheObject T))
      → 0 < length items
      → (k : radix.TileId) × ((o : CacheObject T) × (lookup radix.id_discrete items k ≡ some o))
  unfolding lookup
  first_found [] h = absurd (omega arith)
  first_found ((k, o) ∷ items) h =
      (k, (o, if_pos (radix.id_discrete k k) refl (some o) (lookup radix.id_discrete items k)))

  -- The items were visited before the time.
  abbrev pub AreEarlier : ℕ → List (radix.TileId × CacheObject T) → Type 0
  AreEarlier time = All (λ e. e.1.meta.visited + 100 ≤ time * 100)

  kept_found :
      (time n : ℕ) (tile : T) (c : Cache radix disk.id_of)
      (after : List (radix.TileId × CacheObject T))
      → AreEarlier time c.m_data
      → time * 100 < 2 ^ 64
      → radix.zoom_level (disk.id_of tile) < 100
      → 0 < n
      → IsPurged radix disk.id_of n (insert_tile radix disk.id_of time tile c).m_data after
      → lookup radix.id_discrete after (disk.id_of tile) ≡ some (inserted_object time tile)
  unfolding insert_tile
  kept_found time n tile c after early fits coarse some_room kept =
      let id = disk.id_of tile in
      let new = inserted_object time tile in
      let here = lookup-assign_self radix.id_discrete c.m_data id new in
      elim (Option-cases (lookup radix.id_discrete after id)) [
        | inr (o, e) ↦ e ∙ sym (kept.unchanged id o e) ∙ here
        | inl gone ↦
            let (k, (o, found)) = first_found after (omega (arith, kept.capacity)) in
            let apart : id ≢ k =
              λ p. some≢none (sym found ∙ ap (lookup radix.id_discrete after) (sym p) ∙ gone) in
            let old =
              sym (lookup-assign_ne radix.id_discrete c.m_data id k new apart)
              ∙ kept.unchanged k o found in
            let before =
              All-lookup radix.id_discrete (λ e. e.1.meta.visited + 100 ≤ time * 100) c.m_data k o
                early old in
            let late = stamp_late time (radix.zoom_level id) o.meta.visited fits coarse before in
            let order = kept.latest k id o new found here gone in absurd (omega arith)
      ]

  -- Let a cache be in order for the next write to disk, and let a tile of the scheme of its ids, with a level below 100, be inserted at a time (below 2 ^ 64 / 100) that is later than all visits of the items in the cache and at which no copy of the tile on disk was created. Then the cache contains the tile, and peak_at finds it, also after the next purge, where that leaves any item and nth_element splits the items as documented; for every other id, peak_at finds after the insertion what it found before; and the cache is in order again, with a tile that does not count as written.
  pub insert_tile_lem :
      (time : ℕ) (tile : T) (c : Cache radix disk.id_of) (f : Files radix disk) (n : ℕ)
      (nth_element : ℕ → List (radix.TileId × ℕ) → List (radix.TileId × ℕ))
      (v : IsSynced radix disk c f)
      → radix.scheme (disk.id_of tile) ≡ v.scheme
      → IsNew (disk.id_of tile) time c.m_disk_cached
      → AreEarlier time c.m_data
      → time * 100 < 2 ^ 64
      → radix.zoom_level (disk.id_of tile) < 100
      → 0 < n
      → IsSplit radix disk.id_of n
          (ranks radix disk.id_of (insert_tile radix disk.id_of time tile c).m_data)
          (nth_element n (ranks radix disk.id_of (insert_tile radix disk.id_of time tile c).m_data))
      → IsKnown
          (purge radix disk.id_of nth_element n (insert_tile radix disk.id_of time tile c)).1
          tile
        × ((k : radix.TileId)
            → disk.id_of tile ≢ k
            → peak_at radix disk.id_of (insert_tile radix disk.id_of time tile c) k
              ≡ peak_at radix disk.id_of c k)
        × IsSynced radix disk (insert_tile radix disk.id_of time tile c) f
        × ((o : CacheObject T)
            → lookup radix.id_discrete
                (insert_tile radix disk.id_of time tile c).m_data
                (disk.id_of tile)
              ≡ some o
            → is_current radix disk c.m_disk_cached (disk.id_of tile) o.meta ≢ true)
  unfolding insert_tile peak_at
  insert_tile_lem time tile c f n nth_element v same new early fits coarse some_room split =
      let id = disk.id_of tile in
      let d = insert_tile radix disk.id_of time tile c in
      let o = inserted_object time tile in
      let synced = inserted-IsSynced time tile c f v same new in
      let (all, some_out) = purge_lem radix disk.id_of nth_element n d synced.one_key split in
      (
        elim (dec_le (length d.m_data) n) [
          | yes few ↦
              let same_cache = ap (λ r. r.1) (all few) in
              found-IsKnown (purge radix disk.id_of nth_element n d).1 time tile (
                ap (λ (x : Cache radix disk.id_of). lookup radix.id_discrete x.m_data id) same_cache
                ∙ lookup-assign_self radix.id_discrete c.m_data id o)
          | no many ↦
              let purged = (purge radix disk.id_of nth_element n d).1 in
              found-IsKnown purged time tile (
                kept_found time n tile c purged.m_data early fits coarse some_room
                  (some_out (omega arith)))
        ],
        λ k ne. rw (peak_at, lookup-assign_ne radix.id_discrete c.m_data id k o ne) refl,
        synced,
        λ x e.
            let is : o ≡ x =
              some-injective o x (sym (lookup-assign_self radix.id_discrete c.m_data id o) ∙ e) in
            subst (λ (y : CacheObject T). is_current radix disk c.m_disk_cached id y.meta ≢ true) is
              (new_not_current c.m_disk_cached id o.meta new),
      )
