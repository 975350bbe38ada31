-- ===== src/Tile/Cache/Defs.antt =====
-- The cache in memory. A hash map is an association list with one entry for a key, and the clock is
-- an argument. The mutexes, which make each method one step, are left out.
use alpenite.Prelude.{
  ℕ, ◌+◌, ◌-◌, ◌*◌, ◌%◌, ◌^◌, Bool, true, false, Option, none, some, List, length, lookup, assign,
}
use alpenite.Tile.Ids.{Ids}

pub record MetaData : Type 0 where
  pub visited : ℕ
  pub created : ℕ

pub record CacheObject (T : Type 0) : Type 0 where
  pub meta : MetaData
  pub tile : T

-- `time_stamp * 100 - zoom_level` of uint64_t.
unfoldable pub stamp : ℕ → ℕ → ℕ
stamp time zoom_level = (time * 100 % 2 ^ 64 + 2 ^ 64 - zoom_level) % 2 ^ 64

module _ (radix : Ids) {T : Type 0} (id_of : T → radix.TileId) where
  -- `m_data` and `m_disk_cached`.
  pub record Cache : Type 0 where
    pub m_data : List (radix.TileId × CacheObject T)
    pub m_disk_cached : List (radix.TileId × MetaData)

  unfoldable pub insert_tile : ℕ → T → Cache → Cache
  unfolding stamp
  insert_tile time tile c = record c {
    m_data = assign radix.id_discrete c.m_data (id_of tile) (record {
      meta = record { visited = stamp time (radix.zoom_level (id_of tile)); created = time };
      tile = tile;
    });
  }

  unfoldable pub peak_at : Cache → radix.TileId → Option T
  peak_at c id = elim (lookup radix.id_discrete c.m_data id) [ none ↦ none | some o ↦ some o.tile ]

  unfoldable pub contains_tile : Cache → radix.TileId → Bool
  contains_tile c id = elim (lookup radix.id_discrete c.m_data id) [ none ↦ false | some o ↦ true ]

  unfoldable pub n_cached_objects : Cache → ℕ
  n_cached_objects c = length c.m_data % 2 ^ 32
