-- ===== src/Tile/Cache/Files.antt =====
-- What write_to_disk leaves on disk, and what read_from_disk makes of it.
use alpenite.Prelude.{
  ◌≡◌, ◌≢◌, refl, sym, subst, ap, ◌∙◌, true, Option, none, some, some≢none, List, [], ◌∷◌, ◌++◌,
  append-nil, append_assoc, All, All-zip, Bool-cases, Option-cases, inl, inr, lookup, assign,
  lookup-assign_self, lookup-assign_ne, assign_absent, IsDistinctKeys, map,
}
use alpenite.Tile.Ids.{Ids}
use alpenite.Tile.Cache.Defs.{MetaData, CacheObject}
use alpenite.Tile.Cache.Disk.{
  Codec, IsCodec, Storage, ok, parse, is_current, Writing, write_tile, write_item, write_items,
  TilePath, tile_path, path_discrete, wrote_tile,
}
use alpenite.Tile.Cache.Paths.{IsDistinctPaths}

pub parse_lem :
    {A : Type 0} (codec : Codec A) (a : A) (b : codec.Bytes)
    → IsCodec codec
    → codec.out a ≡ some b
    → parse codec b ≡ ok a
unfolding parse
parse_lem codec a b c e =
    let (rest, (version, value)) = c.inverse a b e in rw (parse, version, c.same, value) refl

-- No write is short: a file that was opened holds all that was written to it.
abbrev pub IsWhole : {radix : Ids} {T : Type 0} → Storage radix T → Type 0
IsWhole disk =
    ((path : TilePath) (b held : disk.tiles.Bytes) → disk.put_tile path b ≡ some held → held ≡ b)
    × ((b held : disk.metas.Bytes) → disk.put_meta b ≡ some held → held ≡ b)

module _ (radix : Ids) {T : Type 0} (disk : Storage radix T) where
  abbrev Item : Type 0
  Item = radix.TileId × CacheObject T

  abbrev TileFiles : Type 0
  TileFiles = List (TilePath × disk.tiles.Bytes)

  -- The file of an item holds its tile.
  abbrev pub IsStored : TileFiles → Item → Type 0
  IsStored files e =
      (b : disk.tiles.Bytes) × ((lookup path_discrete files (tile_path radix e.0) ≡ some b)
        × (disk.tiles.out e.1.tile ≡ some b))

  abbrev pub noted : List Item → List (radix.TileId × MetaData)
  noted = map (λ e. (e.0, e.1.meta))

  -- What one item changes.
  record IsWritten (w : Writing radix disk) (e : Item) (w' : Writing radix disk) : Type 0 where
    cached : w'.cached ≡ assign radix.id_discrete w.cached e.0 e.1.meta
    stored : IsStored w'.written e
    others :
        (j : TilePath)
        → tile_path radix e.0 ≢ j
        → lookup path_discrete w'.written j ≡ lookup path_discrete w.written j

  write_tile_lem :
      (id : radix.TileId) (o : CacheObject T) (out : Option disk.tiles.Bytes)
      (w w' : Writing radix disk)
      → IsWhole disk
      → disk.tiles.out o.tile ≡ out
      → w'.cached ≡ assign radix.id_discrete w.cached id o.meta
      → w'.written ≡ w.written
      → (write_tile radix disk id out w').error ≡ none
      → IsWritten w (id, o) (write_tile radix disk id out w')
  unfolding write_tile wrote_tile
  write_tile_lem id o none w w' whole e c same h = absurd (some≢none h)
  write_tile_lem id o (some b) w w' whole e c same h =
      let path = tile_path radix id in
      elim (Option-cases (disk.put_tile path b)) [
        | inl no_file ↦ absurd (some≢none (rw (no_file) at h))
        | inr (held, file) ↦
            rw (file, write_tile)
              (record {
                cached = c;
                stored = (
                  b,
                  (
                    lookup-assign_self path_discrete w'.written path held
                        ∙ ap (λ x. some x) (whole.0 path b held file),
                    e,
                  ),
                );
                others = λ j ne.
                    lookup-assign_ne path_discrete w'.written path j held ne
                    ∙ ap (λ files. lookup path_discrete files j) same;
              })
      ]

  write_item_lem :
      (old : List (radix.TileId × MetaData)) (id : radix.TileId) (o : CacheObject T)
      (w : Writing radix disk)
      → IsWhole disk
      → w.error ≡ none
      → (is_current radix disk old id o.meta ≡ true → IsStored w.written (id, o))
      → (write_item radix disk old id o w).error ≡ none
      → IsWritten w (id, o) (write_item radix disk old id o w)
  unfolding write_item
  write_item_lem old id o w whole quiet synced h =
      elim (Bool-cases (is_current radix disk old id o.meta)) [
        | inl current ↦
            rw (current, write_item)
              (record { cached = refl; stored = synced current; others = λ j ne. refl })
        | inr changed ↦
            rw (changed, write_item)
              (write_tile_lem id o (disk.tiles.out o.tile) w
                (record w { cached = assign radix.id_discrete w.cached id o.meta }) whole refl refl
                refl (rw (changed, write_item) at h))
      ]

  -- What the loop over the items leaves.
  pub record AreWritten (w : Writing radix disk) (items : List Item) (w' : Writing radix disk)
      : Type 0 where
    pub cached : w'.cached ≡ w.cached ++ noted items
    pub stored : All (IsStored w'.written) items
    pub others :
        (j : TilePath)
        → All (λ e. tile_path radix e.0 ≢ j) items
        → lookup path_discrete w'.written j ≡ lookup path_discrete w.written j

  -- Every item that counts as current has its file.
  abbrev pub AreSynced : List (radix.TileId × MetaData) → TileFiles → List Item → Type 0
  AreSynced old files = All (λ e. is_current radix disk old e.0 e.1.meta ≡ true → IsStored files e)

  abbrev IsUnnoted : List (radix.TileId × MetaData) → List Item → Type 0
  IsUnnoted cached = All (λ e. lookup radix.id_discrete cached e.0 ≡ none)

  pub IsStored-same :
      (files files' : TileFiles) (e : Item)
      → lookup path_discrete files' (tile_path radix e.0)
        ≡ lookup path_discrete files (tile_path radix e.0)
      → IsStored files e
      → IsStored files' e
  IsStored-same files files' e same (b, (found, out)) = (b, (same ∙ found, out))

  IsUnnoted-step :
      (cached : List (radix.TileId × MetaData)) (id : radix.TileId) (m : MetaData)
      (items : List Item)
      → lookup radix.id_discrete cached id ≡ none
      → All (λ e. e.0 ≢ id) items
      → IsUnnoted cached items
      → IsUnnoted (assign radix.id_discrete cached id m) items
  IsUnnoted-step cached id m items absent apart =
      All-zip (λ e. e.0 ≢ id) (λ e. lookup radix.id_discrete cached e.0 ≡ none)
        (λ e. lookup radix.id_discrete (assign radix.id_discrete cached id m) e.0 ≡ none) items
        (λ e ne same. lookup-assign_ne radix.id_discrete cached id e.0 m (λ p. ne (sym p)) ∙ same)
        apart

  AreSynced-step :
      (old : List (radix.TileId × MetaData)) (files files' : TileFiles) (path : TilePath)
      (items : List Item)
      → ((j : TilePath) → path ≢ j → lookup path_discrete files' j ≡ lookup path_discrete files j)
      → All (λ e. tile_path radix e.0 ≢ path) items
      → AreSynced old files items
      → AreSynced old files' items
  AreSynced-step old files files' path items same =
      All-zip (λ e. tile_path radix e.0 ≢ path)
        (λ e. is_current radix disk old e.0 e.1.meta ≡ true → IsStored files e)
        (λ e. is_current radix disk old e.0 e.1.meta ≡ true → IsStored files' e) items
        (λ e ne s current.
          IsStored-same files files' e (same (tile_path radix e.0) (λ p. ne (sym p))) (s current))

  pub write_items_lem :
      (old : List (radix.TileId × MetaData)) (items : List Item) (w : Writing radix disk)
      → IsWhole disk
      → w.error ≡ none
      → IsDistinctKeys radix.id_discrete items
      → IsDistinctPaths radix items
      → IsUnnoted w.cached items
      → AreSynced old w.written items
      → (write_items radix disk old items w).error ≡ none
      → AreWritten w items (write_items radix disk old items w)
  unfolding write_items
  write_items_lem old [] w whole quiet d paths u s h = record {
    cached = sym (append-nil w.cached);
    stored = tt;
    others = λ j apart. refl;
  }
  write_items_lem old ((id, o) ∷ items) w whole quiet d paths u s h =
      let w' = write_item radix disk old id o w in
      elim (Option-cases w'.error) [
        | inr (e, bad) ↦
            let stopped : write_items radix disk old ((id, o) ∷ items) w ≡ w' =
              rw (write_items, bad) refl in
            absurd
              (some≢none (sym bad ∙ sym (ap (λ (x : Writing radix disk). x.error) stopped) ∙ h))
        | inl fine ↦
            let one = write_item_lem old id o w whole quiet s.0 fine in
            let next : write_items radix disk old ((id, o) ∷ items) w
                ≡ write_items radix disk old items w' =
              rw (write_items, fine) refl in
            let rest =
              write_items_lem old items w' whole fine d.1 paths.1
                (subst (λ c. IsUnnoted c items) (sym one.cached)
                  (IsUnnoted-step w.cached id o.meta items u.0 d.0 u.1))
                (AreSynced-step old w.written w'.written (tile_path radix id) items one.others
                  paths.0 s.1)
                (subst (λ x. x.error ≡ none) next h) in
            subst (AreWritten w ((id, o) ∷ items)) (sym next) (record {
              cached =
                  rest.cached
                  ∙ ap (λ c. c ++ noted items)
                      (one.cached ∙ assign_absent radix.id_discrete w.cached id o.meta u.0)
                  ∙ append_assoc w.cached ((id, o.meta) ∷ []) (noted items);
              stored = (
                IsStored-same w'.written _ (id, o) (rest.others (tile_path radix id) paths.0)
                    one.stored,
                rest.stored,
              );
              others = λ j apart. rest.others j apart.1 ∙ one.others j apart.0;
            })
      ]
