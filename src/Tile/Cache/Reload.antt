-- ===== src/Tile/Cache/Reload.antt =====
-- The files that write_to_disk keeps, and the items that read_from_disk makes of stored files.
use alpenite.Prelude.{
  ℕ, ◌≡◌, ◌≢◌, refl, sym, ap, ◌∙◌, arith, true, false, none, some, List, [], ◌∷◌, ◌++◌, append-nil,
  append_assoc, All, All-zip, Bool-cases, Option-cases, inl, inr, lookup, assign, remove,
  lookup-remove_ne, assign_absent, lookup-append_ne, lookup_only, lookup_member, IsDistinctKeys,
  ==_iff,
}
use alpenite.Tile.Ids.{Ids, IsMadeOfParts}
use alpenite.Tile.Cache.Defs.{MetaData, CacheObject}
use alpenite.Tile.Cache.Disk.{
  IsCodec, Storage, ok, is_current, is_in_data, remove_stale, read_tile, read_items, TilePath,
  tile_path, path_discrete,
}
use alpenite.Tile.Cache.Paths.{path_lem, AreOfScheme}
use alpenite.Tile.Cache.Files.{IsStored, noted, AreSynced, IsStored-same, parse_lem}

module _ (radix : Ids) {T : Type 0} (disk : Storage radix T) where
  abbrev Item : Type 0
  Item = radix.TileId × CacheObject T

  abbrev TileFiles : Type 0
  TileFiles = List (TilePath × disk.tiles.Bytes)

  -- A file stays when every entry that it belongs to is in memory as it was.
  remove_stale_kept :
      (objects : List Item) (old : List (radix.TileId × MetaData)) (files : TileFiles)
      (path : TilePath)
      → All (λ e. tile_path radix e.0 ≡ path → is_in_data radix disk objects e.0 e.1 ≡ true) old
      → lookup path_discrete (remove_stale radix disk objects old files) path
        ≡ lookup path_discrete files path
  unfolding remove_stale
  remove_stale_kept objects [] files path h = refl
  remove_stale_kept objects ((j, m) ∷ old) files path h =
      elim (Bool-cases (is_in_data radix disk objects j m)) [
        | inl stays ↦ rw (remove_stale, stays) (remove_stale_kept objects old files path h.1)
        | inr goes ↦
            let apart : tile_path radix j ≢ path = λ p. absurd (ground (arith, h.0 p, goes)) in
            rw (remove_stale, goes)
              (remove_stale_kept objects old (remove path_discrete files (tile_path radix j)) path
                  h.1
                ∙ lookup-remove_ne path_discrete files (tile_path radix j) path apart)
      ]

  current_found :
      (old : List (radix.TileId × MetaData)) (id : radix.TileId) (meta : MetaData)
      → is_current radix disk old id meta ≡ true
      → (m : MetaData) × ((lookup radix.id_discrete old id ≡ some m) × (m.created ≡ meta.created))
  unfolding is_current
  current_found old id meta h = elim (Option-cases (lookup radix.id_discrete old id)) [
    | inl e ↦ let no_meta : false ≡ true = rw (e, is_current) at h in absurd (cc)
    | inr (m, e) ↦ (m, (e, (==_iff m.created meta.created).0 (rw (e, is_current) at h)))
  ]

  found_in_data :
      (objects : List Item) (id : radix.TileId) (o : CacheObject T) (m : MetaData)
      → lookup radix.id_discrete objects id ≡ some o
      → m.created ≡ o.meta.created
      → is_in_data radix disk objects id m ≡ true
  unfolding is_in_data
  found_in_data objects id o m e same =
      rw (e, is_in_data) ((==_iff o.meta.created m.created).1 (sym same))

  -- The entries of a file are in memory as they were, where the item of the file is current.
  in_data_all :
      (scheme : ℕ) (old : List (radix.TileId × MetaData)) (objects : List Item) (e : Item)
      (m : MetaData)
      → IsMadeOfParts radix
      → AreOfScheme radix scheme old
      → radix.scheme e.0 ≡ scheme
      → IsDistinctKeys radix.id_discrete old
      → lookup radix.id_discrete objects e.0 ≡ some e.1
      → lookup radix.id_discrete old e.0 ≡ some m
      → m.created ≡ e.1.meta.created
      → All
          (λ x.
            tile_path radix x.0 ≡ tile_path radix e.0
            → is_in_data radix disk objects x.0 x.1 ≡ true)
          old
  in_data_all scheme old objects e m parts s own d here found same =
      All-zip (λ x. radix.scheme x.0 ≡ scheme) (λ x. x.0 ≡ e.0 → x.1 ≡ m)
        (λ x.
          tile_path radix x.0 ≡ tile_path radix e.0 → is_in_data radix disk objects x.0 x.1 ≡ true)
        old
        (λ x one only path.
          let p = path_lem radix x.0 e.0 parts (one ∙ sym own) path in
          found_in_data objects x.0 e.1 x.1 (ap (lookup radix.id_discrete objects) p ∙ here)
            (ap (λ (y : MetaData). y.created) (only p) ∙ same))
        s (lookup_only radix.id_discrete old e.0 m d found)

  pub begin-AreSynced :
      (scheme : ℕ) (old : List (radix.TileId × MetaData)) (objects : List Item) (files : TileFiles)
      → IsMadeOfParts radix
      → AreOfScheme radix scheme old
      → AreOfScheme radix scheme objects
      → IsDistinctKeys radix.id_discrete old
      → IsDistinctKeys radix.id_discrete objects
      → AreSynced radix disk old files objects
      → AreSynced radix disk old (remove_stale radix disk objects old files) objects
  begin-AreSynced scheme old objects files parts s t d k v =
      All-zip (λ e. radix.scheme e.0 ≡ scheme)
        (λ e.
          (lookup radix.id_discrete objects e.0 ≡ some e.1)
          × (is_current radix disk old e.0 e.1.meta ≡ true → IsStored radix disk files e))
        (λ e.
          is_current radix disk old e.0 e.1.meta ≡ true
          → IsStored radix disk (remove_stale radix disk objects old files) e)
        objects
        (λ e own both current.
          let (m, (found, same)) = current_found old e.0 e.1.meta current in
          IsStored-same radix disk files _ e
            (remove_stale_kept objects old files (tile_path radix e.0)
              (in_data_all scheme old objects e m parts s own d both.0 found same))
            (both.1 current))
        t
        (All-zip (λ e. lookup radix.id_discrete objects e.0 ≡ some e.1)
          (λ e. is_current radix disk old e.0 e.1.meta ≡ true → IsStored radix disk files e)
          (λ e.
            (lookup radix.id_discrete objects e.0 ≡ some e.1)
            × (is_current radix disk old e.0 e.1.meta ≡ true → IsStored radix disk files e))
          objects (λ e here stored. (here, stored)) (lookup_member radix.id_discrete objects k) v)

  read_tile_lem :
      (files : TileFiles) (e : Item)
      → IsCodec disk.tiles
      → IsStored radix disk files e
      → read_tile radix disk files e.0 ≡ ok e.1.tile
  unfolding read_tile
  read_tile_lem files e c (b, (found, out)) =
      rw (read_tile, found) (parse_lem disk.tiles e.1.tile b c out)

  pub read_items_lem :
      (files : TileFiles) (items objects : List Item)
      → IsCodec disk.tiles
      → All (IsStored radix disk files) items
      → All (λ e. disk.id_of e.1.tile ≡ e.0) items
      → IsDistinctKeys radix.id_discrete items
      → All (λ e. lookup radix.id_discrete objects e.0 ≡ none) items
      → read_items radix disk files (noted radix disk items) objects ≡ ok (objects ++ items)
  unfolding read_items
  read_items_lem files [] objects c s k d u = ap ok (sym (append-nil objects))
  read_items_lem files ((id, o) ∷ items) objects c s k d u =
      let tile = read_tile_lem files (id, o) c s.0 in
      let put : assign radix.id_discrete objects (disk.id_of o.tile) o ≡ objects ++ (id, o) ∷ [] =
        ap (λ key. assign radix.id_discrete objects key o) k.0
        ∙ assign_absent radix.id_discrete objects id o u.0 in
      let step : read_items radix disk files (noted radix disk ((id, o) ∷ items)) objects
          ≡ read_items radix disk files (noted radix disk items)
              (assign radix.id_discrete objects (disk.id_of o.tile) o) =
        rw (read_items, tile) refl in
      let absent =
        All-zip (λ e. e.0 ≢ id) (λ e. lookup radix.id_discrete objects e.0 ≡ none)
          (λ e. lookup radix.id_discrete (objects ++ (id, o) ∷ []) e.0 ≡ none) items
          (λ e ne same. lookup-append_ne radix.id_discrete objects id e.0 o ne ∙ same) d.0 u.1 in
      step
      ∙ ap (read_items radix disk files (noted radix disk items)) put
      ∙ read_items_lem files items (objects ++ (id, o) ∷ []) c s.1 k.1 d.1 absent
      ∙ ap ok (append_assoc objects ((id, o) ∷ []) items)
