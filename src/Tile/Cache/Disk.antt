-- ===== src/Tile/Cache/Disk.antt =====
-- write_to_disk and read_from_disk. The directory of the cache is a map from file names to the bytes
-- of the files, and the file with the meta data. The serialisation library is a parameter, and so is
-- what the file system makes of a write.
use alpenite.Prelude.{
  ℕ, ◌≡◌, ap, ℕ_discrete, Bool, true, false, Option, none, some, List, [], ◌∷◌, lookup, assign,
  remove, ◌==◌, if◌then◌else◌,
}
use alpenite.Tile.Ids.{Ids}
use alpenite.Tile.Cache.Defs.{MetaData, CacheObject, Cache}

-- What the code uses of zpp_bits: a version and a value to bytes, and the version and then the value
-- out of bytes. A failure is none.
pub record Codec (A : Type 0) : Type 1 where
  pub Bytes : Type 0
  pub Version : Type 0
  pub version : Version
  pub same_version : Version → Version → Bool
  pub out : A → Option Bytes
  pub in_version : Bytes → Option (Version × Bytes)
  pub in_value : Bytes → Option A

-- What is read is what was written.
pub record IsCodec {A : Type 0} (codec : Codec A) : Type 0 where
  pub same : codec.same_version codec.version codec.version ≡ true
  pub inverse :
      (a : A) (b : codec.Bytes)
      → codec.out a ≡ some b
      → (rest : codec.Bytes) × ((codec.in_version b ≡ some (codec.version, rest))
          × (codec.in_value rest ≡ some a))

pub data DiskError : Type 0 where
  cannot_write cannot_serialise cannot_read cannot_parse incompatible_version : DiskError

pub data Outcome (A : Type 0) : Type 0 where
  ok : A → Outcome A
  failed : DiskError → Outcome A

-- The bytes of a file: check_version, then the value.
unfoldable pub parse : {A : Type 0} (codec : Codec A) → codec.Bytes → Outcome A
parse codec bytes = elim (codec.in_version bytes) [
  | none ↦ failed cannot_parse
  | some v ↦
      if codec.same_version v.0 codec.version
      then (elim (codec.in_value v.1) [ none ↦ failed cannot_parse | some a ↦ ok a ])
      else failed incompatible_version
]

-- `zoom_x_y.alp_tile` in the directory of the cache: the three numbers of the name. The scheme of the
-- id is not in it.
pub record TilePath : Type 0 where
  pub zoom : ℕ
  pub x : ℕ
  pub y : ℕ

unfoldable pub path_discrete : Discrete TilePath
unfolding ℕ_discrete
path_discrete a b = elim (ℕ_discrete a.zoom b.zoom) [
  | no n ↦ no (λ e. n (ap (λ (p : TilePath). p.zoom) e))
  | yes z ↦ elim (ℕ_discrete a.x b.x) [
    | no n ↦ no (λ e. n (ap (λ (p : TilePath). p.x) e))
    | yes x ↦ elim (ℕ_discrete a.y b.y) [
      | no n ↦ no (λ e. n (ap (λ (p : TilePath). p.y) e))
      | yes y ↦ yes (λ i. record { zoom = z i; x = x i; y = y i })
    ]
  ]
]

unfoldable pub tile_path : (radix : Ids) → radix.TileId → TilePath
tile_path radix id = record {
  zoom = radix.zoom_level id;
  x = radix.coords_x id;
  y = radix.coords_y id;
}

-- The id of a tile, the formats of the files, and the file system: what a file holds once it was
-- opened for writing and given the bytes, which is fewer of them after a short write, and none where
-- it cannot be opened.
pub record Storage (radix : Ids) (T : Type 0) : Type 1 where
  pub id_of : T → radix.TileId
  pub tiles : Codec T
  pub metas : Codec (List (radix.TileId × MetaData))
  pub put_tile : TilePath → tiles.Bytes → Option tiles.Bytes
  pub put_meta : metas.Bytes → Option metas.Bytes

module _ (radix : Ids) {T : Type 0} (disk : Storage radix T) where
  -- The directory of the cache.
  pub record Files : Type 0 where
    pub tile_files : List (TilePath × disk.tiles.Bytes)
    pub meta_file : Option disk.metas.Bytes

  -- Is the item in the map with the same time of creation?
  unfoldable pub is_current : List (radix.TileId × MetaData) → radix.TileId → MetaData → Bool
  is_current known id meta = elim (lookup radix.id_discrete known id) [
    | none ↦ false
    | some m ↦ m.created == meta.created
  ]

  unfoldable pub is_in_data : List (radix.TileId × CacheObject T) → radix.TileId → MetaData → Bool
  is_in_data objects id meta = elim (lookup radix.id_discrete objects id) [
    | none ↦ false
    | some o ↦ o.meta.created == meta.created
  ]

  -- Removes the files of items that were removed or updated in memory.
  unfoldable pub remove_stale :
      List (radix.TileId × CacheObject T)
      → List (radix.TileId × MetaData)
      → List (TilePath × disk.tiles.Bytes)
      → List (TilePath × disk.tiles.Bytes)
  unfolding is_in_data tile_path
  remove_stale objects [] files = files
  remove_stale objects ((id, meta) ∷ old) files = remove_stale objects old (
      if is_in_data objects id meta then files else remove path_discrete files (tile_path radix id))

  -- The files and `m_disk_cached` while the items are written, and an error that ends the loop.
  pub record Writing : Type 0 where
    pub written : List (TilePath × disk.tiles.Bytes)
    pub cached : List (radix.TileId × MetaData)
    pub error : Option DiskError

  -- The write of a file that was opened: its result is not looked at, so whatever the file holds now,
  -- the write counts as done.
  unfoldable pub wrote_tile : TilePath → Option disk.tiles.Bytes → Writing → Writing
  wrote_tile path none w = record w { error = some cannot_write }
  wrote_tile path (some held) w = record w { written = assign path_discrete w.written path held }

  -- One file; `none` for the bytes is a failure of the serialisation.
  unfoldable pub write_tile : radix.TileId → Option disk.tiles.Bytes → Writing → Writing
  unfolding wrote_tile tile_path
  write_tile id none w = record w { error = some cannot_serialise }
  write_tile id (some bytes) w =
      wrote_tile (tile_path radix id) (disk.put_tile (tile_path radix id) bytes) w

  unfoldable pub write_item :
      List (radix.TileId × MetaData) → radix.TileId → CacheObject T → Writing → Writing
  unfolding is_current write_tile
  write_item old id o w =
      let noted = record w { cached = assign radix.id_discrete w.cached id o.meta } in
      if is_current old id o.meta then noted else write_tile id (disk.tiles.out o.tile) noted

  unfoldable pub write_items :
      List (radix.TileId × MetaData) → List (radix.TileId × CacheObject T) → Writing → Writing
  unfolding write_item
  write_items old [] w = w
  write_items old ((id, o) ∷ items) w =
      let w' = write_item old id o w in
      elim w'.error [ some e ↦ w' | none ↦ write_items old items w' ]

  -- The file with the meta data, at the end.
  unfoldable pub write_meta : Option disk.metas.Bytes → Files → Outcome Unit × Files
  write_meta none f = (failed cannot_serialise, f)
  write_meta (some bytes) f = elim (disk.put_meta bytes) [
    | none ↦ (failed cannot_write, f)
    | some held ↦ (ok tt, record f { meta_file = some held })
  ]

  unfoldable pub begin_writing : Cache radix disk.id_of → Files → Writing
  unfolding remove_stale
  begin_writing c f = record {
    written = remove_stale c.m_data c.m_disk_cached f.tile_files;
    cached = [];
    error = none;
  }

  unfoldable pub finish_writing :
      Cache radix disk.id_of → Files → Writing → Outcome Unit × (Cache radix disk.id_of × Files)
  unfolding write_meta
  finish_writing c f w =
      let c' = record c { m_disk_cached = w.cached } in
      let f' = record f { tile_files = w.written } in
      elim w.error [
        | some e ↦ (failed e, (c', f'))
        | none ↦ let r = write_meta (disk.metas.out w.cached) f' in (r.0, (c', r.1))
      ]

  unfoldable pub write_to_disk :
      Cache radix disk.id_of → Files → Outcome Unit × (Cache radix disk.id_of × Files)
  unfolding begin_writing write_items finish_writing
  write_to_disk c f = finish_writing c f (write_items c.m_disk_cached c.m_data (begin_writing c f))

  -- The tile of one entry, with the meta data of the entry, under the id of the tile that was read.
  unfoldable pub read_tile : List (TilePath × disk.tiles.Bytes) → radix.TileId → Outcome T
  unfolding parse tile_path
  read_tile files id = elim (lookup path_discrete files (tile_path radix id)) [
    | none ↦ failed cannot_read
    | some bytes ↦ parse disk.tiles bytes
  ]

  unfoldable pub read_items :
      List (TilePath × disk.tiles.Bytes)
      → List (radix.TileId × MetaData)
      → List (radix.TileId × CacheObject T)
      → Outcome (List (radix.TileId × CacheObject T))
  unfolding read_tile
  read_items files [] objects = ok objects
  read_items files ((id, meta) ∷ entries) objects = elim (read_tile files id) [
    | failed e ↦ failed e
    | ok t ↦
        read_items files entries
          (assign radix.id_discrete objects (disk.id_of t) (record { meta = meta; tile = t }))
  ]

  abbrev pub cleaned : Cache radix disk.id_of
  cleaned = record { m_data = []; m_disk_cached = [] }

  unfoldable pub read_meta : Files → Outcome (List (radix.TileId × MetaData))
  unfolding parse
  read_meta f = elim f.meta_file [ none ↦ failed cannot_read | some bytes ↦ parse disk.metas bytes ]

  -- Any error leaves the cache empty.
  unfoldable pub read_from_disk : Files → Outcome Unit × Cache radix disk.id_of
  unfolding read_meta read_items
  read_from_disk f = elim (read_meta f) [
    | failed e ↦ (failed e, cleaned)
    | ok entries ↦ elim (read_items f.tile_files entries []) [
      | failed e ↦ (failed e, cleaned)
      | ok objects ↦ (ok tt, record { m_data = objects; m_disk_cached = entries })
    ]
  ]
