-- ===== src/Tile/Cache/Tests.antt =====
-- A cache with two tiles that goes to disk. A tile is a number that holds its id, and bytes are what
-- they stand for.
use alpenite.Prelude.{
  ℕ, ◌≡◌, refl, sym, true, none, some, List, [], ◌∷◌, lookup, assign, ℕ_discrete, arith,
}
use alpenite.Tile.Ids.{CurveId, curve, at, curve_discrete}
use alpenite.Tile.Cache.Defs.{MetaData, CacheObject, Cache}
use alpenite.Tile.Cache.Disk.{
  is_current, Codec, IsCodec, Storage, ok, Files, TilePath, path_discrete, write_to_disk,
  read_from_disk,
}
use alpenite.Tile.Cache.Files.{IsWhole}
use alpenite.Tile.Ids.{curve-IsMadeOfParts}
use alpenite.Tile.Ids.{curve-IsQuadTree}
use alpenite.Tile.Cache.Visit.{visit, AreTouched, visit_lem}
use alpenite.Prelude.{Bool, leb, length, IsDistinctKeys, ◌≤◌, ◌<◌}
use alpenite.Tile.Cache.Purge.{ranks, purge, IsSplit}
use alpenite.Tile.Cache.Latest.{IsPurged, purge_lem}
use alpenite.Prelude.{◌≢◌}
use alpenite.Tile.Cache.Defs.{insert_tile, peak_at}
use alpenite.Tile.Cache.Insert.{IsKnown, insert_tile_lem}
use alpenite.Tile.Cache.RoundTrip.{IsSynced, read_from_disk-write_to_disk}

abbrev plain : (A : Type 0) → Codec A
plain A = record {
  Bytes = A;
  Version = Unit;
  version = tt;
  same_version = λ _ _. true;
  out = λ a. some a;
  in_version = λ b. some (tt, b);
  in_value = λ b. some b;
}

plain-IsCodec : (A : Type 0) → IsCodec (plain A)
plain-IsCodec A = record { same = refl; inverse = λ a b e. (b, (refl, sym e)) }

abbrev storage : Storage curve CurveId
storage = record {
  id_of = λ id. id;
  tiles = plain CurveId;
  metas = plain (List (CurveId × MetaData));
  put_tile = λ _ b. some b;
  put_meta = λ b. some b;
}

storage-IsWhole : IsWhole storage
storage-IsWhole = (λ path b held e. sym (ground arith), λ b held e. sym (ground arith))

abbrev meta_of : ℕ → MetaData
meta_of created = record { visited = created; created = created }

abbrev item : CurveId → ℕ → CurveId × CacheObject CurveId
item id created = (id, record { meta = meta_of created; tile = id })

abbrev two_tiles : Cache curve storage.id_of
two_tiles = record { m_data = item (at 0 0) 5 ∷ item (at 1 2) 6 ∷ []; m_disk_cached = [] }

abbrev saved_tiles : Cache curve storage.id_of
saved_tiles = record two_tiles { m_disk_cached = (at 0 0, meta_of 5) ∷ (at 1 2, meta_of 6) ∷ [] }

abbrev no_files : Files curve storage
no_files = record { tile_files = []; meta_file = none }

abbrev path : ℕ → ℕ → TilePath
path zoom x = record { zoom = zoom; x = x; y = 0 }

abbrev saved_files : Files curve storage
saved_files = record {
  tile_files = (path 0 0, at 0 0) ∷ (path 1 2, at 1 2) ∷ [];
  meta_file = some saved_tiles.m_disk_cached;
}

wrote : write_to_disk curve storage two_tiles no_files ≡ (ok tt, (saved_tiles, saved_files))
unfolding write_to_disk lookup assign curve_discrete path_discrete ℕ_discrete
wrote = refl

two_tiles-IsSynced : IsSynced curve storage two_tiles no_files
unfolding lookup is_current
two_tiles-IsSynced = record {
  one_key = ((ground arith, tt), (tt, tt));
  one_key_on_disk = tt;
  keyed = (refl, (refl, tt));
  scheme = 0;
  one_scheme = (refl, (refl, tt));
  one_scheme_on_disk = tt;
  stored = ((λ h. absurd (cc)), ((λ h. absurd (cc)), tt));
}

read_from_disk-write_to_disk_example :
    (read_from_disk curve storage saved_files ≡ (ok tt, saved_tiles))
    × (saved_tiles.m_data ≡ two_tiles.m_data)
    × IsSynced curve storage saved_tiles saved_files
read_from_disk-write_to_disk_example =
    read_from_disk-write_to_disk curve storage two_tiles saved_tiles no_files saved_files
      curve-IsMadeOfParts storage-IsWhole (plain-IsCodec CurveId)
      (plain-IsCodec (List (CurveId × MetaData))) two_tiles-IsSynced wrote

-- Three tiles, the one that was visited last first, in which nothing is to be reordered.
abbrev three_tiles : Cache curve storage.id_of
three_tiles = record {
  m_data = item (at 0 0) 9 ∷ item (at 1 2) 7 ∷ item (at 1 1) 4 ∷ [];
  m_disk_cached = [];
}

abbrev keep_order : ℕ → List (CurveId × ℕ) → List (CurveId × ℕ)
keep_order n xs = xs

three-IsDistinctKeys : IsDistinctKeys curve_discrete three_tiles.m_data
three-IsDistinctKeys = ((ground arith, (ground arith, tt)), ((ground arith, tt), (tt, tt)))

three-IsSplit :
    IsSplit curve storage.id_of 2
      (ranks curve storage.id_of three_tiles.m_data)
      (keep_order 2 (ranks curve storage.id_of three_tiles.m_data))
unfolding ranks
three-IsSplit = record {
  same_length = refl;
  one_key = ((ground arith, (ground arith, tt)), ((ground arith, tt), (tt, tt)));
  same_items = λ k. refl;
  ordered = ((omega arith, tt), ((omega arith, tt), tt));
}

purge_lem_example :
    (length three_tiles.m_data ≤ 2
      → purge curve storage.id_of keep_order 2 three_tiles ≡ ([], three_tiles))
    × (2 < length three_tiles.m_data
        → IsPurged curve storage.id_of 2 three_tiles.m_data
            (purge curve storage.id_of keep_order 2 three_tiles).1.m_data)
purge_lem_example =
    purge_lem curve storage.id_of keep_order 2 three_tiles three-IsDistinctKeys three-IsSplit

-- Only the tiles down to level 0 are accepted.
abbrev is_coarse : CurveId → Bool
is_coarse id = leb id.level 0

visit_lem_example :
    (d : Cache curve storage.id_of) × ((visit curve storage.id_of is_coarse 20 three_tiles ≡ some d)
      × AreTouched curve storage.id_of is_coarse 20 three_tiles.m_data d.m_data)
visit_lem_example = visit_lem curve storage.id_of is_coarse 20 three_tiles curve-IsQuadTree

three-IsSynced : IsSynced curve storage three_tiles no_files
unfolding lookup is_current
three-IsSynced = record {
  one_key = three-IsDistinctKeys;
  one_key_on_disk = tt;
  keyed = (refl, (refl, (refl, tt)));
  scheme = 0;
  one_scheme = (refl, (refl, (refl, tt)));
  one_scheme_on_disk = tt;
  stored = ((λ h. absurd (cc)), ((λ h. absurd (cc)), ((λ h. absurd (cc)), tt)));
}

-- The root is inserted again at time 30, so that it comes first.
renewed-IsSplit :
    IsSplit curve storage.id_of 2
      (ranks curve storage.id_of (insert_tile curve storage.id_of 30 (at 0 0) three_tiles).m_data)
      (keep_order 2 (
        ranks curve storage.id_of (insert_tile curve storage.id_of 30 (at 0 0) three_tiles).m_data))
unfolding ranks insert_tile assign curve_discrete ℕ_discrete
renewed-IsSplit = record {
  same_length = refl;
  one_key = ((ground arith, (ground arith, tt)), ((ground arith, tt), (tt, tt)));
  same_items = λ k. refl;
  ordered = ((omega arith, tt), ((omega arith, tt), tt));
}

insert_tile_lem_example :
    IsKnown curve storage
      (purge curve storage.id_of keep_order 2
        (insert_tile curve storage.id_of 30 (at 0 0) three_tiles)).1
      (at 0 0)
    × ((k : CurveId)
        → at 0 0 ≢ k
        → peak_at curve storage.id_of (insert_tile curve storage.id_of 30 (at 0 0) three_tiles) k
          ≡ peak_at curve storage.id_of three_tiles k)
    × IsSynced curve storage (insert_tile curve storage.id_of 30 (at 0 0) three_tiles) no_files
    × ((o : CacheObject CurveId)
        → lookup curve_discrete
            (insert_tile curve storage.id_of 30 (at 0 0) three_tiles).m_data
            (at 0 0)
          ≡ some o
        → is_current curve storage [] (at 0 0) o.meta ≢ true)
unfolding three-IsSynced
insert_tile_lem_example =
    insert_tile_lem curve storage 30 (at 0 0) three_tiles no_files 2 keep_order three-IsSynced refl
      tt (omega arith) (omega arith) (omega arith) (omega arith) renewed-IsSplit
