-- ===== src/Tile/Cache/RoundTrip.antt =====
-- A cache that was written to disk is read back.
use alpenite.Prelude.{
  ℕ, ◌≡◌, ◌≢◌, refl, sym, subst, ap, ◌∙◌, arith, true, Option, none, some, List, [], ◌∷◌, All,
  All-map, Option-cases, inl, inr, lookup, IsDistinctKeys,
}
use alpenite.Tile.Ids.{Ids, IsMadeOfParts}
use alpenite.Tile.Cache.Defs.{CacheObject, Cache}
use alpenite.Tile.Cache.Disk.{
  IsCodec, Storage, DiskError, Outcome, ok, failed, Files, is_current, Writing, write_items,
  write_meta, begin_writing, finish_writing, write_to_disk, read_meta, read_from_disk,
  cannot_serialise, cannot_write,
}
use alpenite.Tile.Cache.Paths.{AreOfScheme, distinct_paths}
use alpenite.Tile.Cache.Files.{
  IsWhole, IsStored, noted, AreSynced, AreWritten, write_items_lem, parse_lem,
}
use alpenite.Tile.Cache.Reload.{begin-AreSynced, read_items_lem}

module _ (radix : Ids) {T : Type 0} (disk : Storage radix T) where
  abbrev Item : Type 0
  Item = radix.TileId × CacheObject T

  -- A cache in order: one entry for a key, each under the id of its tile, all ids of one scheme, and
  -- a file for each item that counts as written.
  pub record IsSynced (c : Cache radix disk.id_of) (f : Files radix disk) : Type 0 where
    pub one_key : IsDistinctKeys radix.id_discrete c.m_data
    pub one_key_on_disk : IsDistinctKeys radix.id_discrete c.m_disk_cached
    pub keyed : All (λ e. disk.id_of e.1.tile ≡ e.0) c.m_data
    pub scheme : ℕ
    pub one_scheme : AreOfScheme radix scheme c.m_data
    pub one_scheme_on_disk : AreOfScheme radix scheme c.m_disk_cached
    pub stored : AreSynced radix disk c.m_disk_cached f.tile_files c.m_data

  begun-AreWritten :
      (c : Cache radix disk.id_of) (f : Files radix disk)
      → IsMadeOfParts radix
      → IsWhole disk
      → IsSynced c f
      → (write_items radix disk c.m_disk_cached c.m_data (begin_writing radix disk c f)).error
        ≡ none
      → AreWritten radix disk
          (begin_writing radix disk c f)
          c.m_data
          (write_items radix disk c.m_disk_cached c.m_data (begin_writing radix disk c f))
  unfolding begin_writing lookup
  begun-AreWritten c f parts whole v h =
      write_items_lem radix disk c.m_disk_cached c.m_data _ whole refl v.one_key
        (distinct_paths radix v.scheme c.m_data parts v.one_scheme v.one_key)
        (All-map (λ e. disk.id_of e.1.tile ≡ e.0) (λ e. lookup radix.id_discrete [] e.0 ≡ none)
          c.m_data (λ e _. refl) v.keyed)
        (begin-AreSynced radix disk v.scheme c.m_disk_cached c.m_data f.tile_files parts
          v.one_scheme_on_disk v.one_scheme v.one_key_on_disk v.one_key v.stored)
        h

  -- After a write without an error: the tiles, the list of what is on disk, and the meta file.
  record IsSaved (c : Cache radix disk.id_of) (c' : Cache radix disk.id_of) (f : Files radix disk)
      : Type 0 where
    same : c'.m_data ≡ c.m_data
    cached : c'.m_disk_cached ≡ noted radix disk c.m_data
    meta : read_meta radix disk f ≡ ok (noted radix disk c.m_data)
    stored : All (IsStored radix disk f.tile_files) c.m_data

  -- How a write without an error ended.
  record IsFinished (c c' : Cache radix disk.id_of) (f' : Files radix disk) (w : Writing radix disk)
      : Type 0 where
    quiet : w.error ≡ none
    bytes : disk.metas.Bytes
    out : disk.metas.out w.cached ≡ some bytes
    cache : c' ≡ record c { m_disk_cached = w.cached }
    files : f' ≡ record { tile_files = w.written; meta_file = some bytes }

  abbrev Ended : Type 0
  Ended = Outcome Unit × (Cache radix disk.id_of × Files radix disk)

  failed≢ok : (e : DiskError) {a : Unit {0}} → ¬ (failed e ≡ ok a)
  failed≢ok e h = cc

  write_meta_lem :
      (o : Option disk.metas.Bytes) (g : Files radix disk)
      → IsWhole disk
      → (write_meta radix disk o g).0 ≡ ok tt
      → (b : disk.metas.Bytes) × ((o ≡ some b)
          × ((write_meta radix disk o g).1 ≡ record g { meta_file = some b }))
  unfolding write_meta
  write_meta_lem none g whole h = absurd (failed≢ok cannot_serialise h)
  write_meta_lem (some b) g whole h = elim (Option-cases (disk.put_meta b)) [
    | inr (held, file) ↦ (
      b,
      (
        refl,
        rw (file, write_meta) (ap (λ x. record g { meta_file = some x }) (whole.1 b held file)),
      ),
    )
    | inl no_file ↦ absurd (failed≢ok cannot_write (rw (no_file, write_meta) at h))
  ]

  finish_writing_lem :
      (c c' : Cache radix disk.id_of) (f f' : Files radix disk) (w : Writing radix disk)
      → IsWhole disk
      → finish_writing radix disk c f w ≡ (ok tt, (c', f'))
      → IsFinished c c' f' w
  unfolding finish_writing
  finish_writing_lem c c' f f' w whole h = elim (Option-cases w.error) [
    | inr (e, bad) ↦
        let stopped : (finish_writing radix disk c f w).0 ≡ failed e =
          rw (finish_writing, bad) refl in
        absurd (failed≢ok e (sym stopped ∙ ap (λ (r : Ended). r.0) h))
    | inl quiet ↦
        let r =
          write_meta radix disk (disk.metas.out w.cached) (record f { tile_files = w.written }) in
        let step : finish_writing radix disk c f w
            ≡ (r.0, (record c { m_disk_cached = w.cached }, r.1)) =
          rw (finish_writing, quiet) refl in
        let same = sym step ∙ h in
        let (b, (out, file)) =
          write_meta_lem (disk.metas.out w.cached) (record f { tile_files = w.written }) whole
            (ap (λ (x : Ended). x.0) same) in
        record {
          quiet = quiet;
          bytes = b;
          out = out;
          cache = sym (ap (λ (x : Ended). x.1.0) same);
          files = sym (ap (λ (x : Ended). x.1.1) same) ∙ file;
        }
  ]

  write_to_disk-IsSaved :
      (c c' : Cache radix disk.id_of) (f f' : Files radix disk)
      → IsMadeOfParts radix
      → IsWhole disk
      → IsCodec disk.metas
      → IsSynced c f
      → write_to_disk radix disk c f ≡ (ok tt, (c', f'))
      → IsSaved c c' f'
  unfolding write_to_disk read_meta begin_writing
  write_to_disk-IsSaved c c' f f' parts whole k v h =
      let w = write_items radix disk c.m_disk_cached c.m_data (begin_writing radix disk c f) in
      let end = finish_writing_lem c c' f f' w whole h in
      let done = begun-AreWritten c f parts whole v end.quiet in
      let parsed = parse_lem disk.metas w.cached end.bytes k end.out in
      record {
        same = ap (λ (x : Cache radix disk.id_of). x.m_data) end.cache;
        cached = ap (λ (x : Cache radix disk.id_of). x.m_disk_cached) end.cache ∙ done.cached;
        meta = ap (read_meta radix disk) end.files ∙ (parsed ∙ ap ok done.cached);
        stored =
            subst (λ (x : Files radix disk). All (IsStored radix disk x.tile_files) c.m_data)
              (sym end.files) done.stored;
      }

  noted-apart :
      (items : List Item) (id : radix.TileId)
      → All (λ e. e.0 ≢ id) items
      → All (λ e. e.0 ≢ id) (noted radix disk items)
  noted-apart [] id h = tt
  noted-apart (e ∷ items) id h = (h.0, noted-apart items id h.1)

  noted-IsDistinctKeys :
      (items : List Item)
      → IsDistinctKeys radix.id_discrete items
      → IsDistinctKeys radix.id_discrete (noted radix disk items)
  noted-IsDistinctKeys [] d = tt
  noted-IsDistinctKeys ((id, o) ∷ items) d =
      (noted-apart items id d.0, noted-IsDistinctKeys items d.1)

  noted-AreOfScheme :
      (scheme : ℕ) (items : List Item)
      → AreOfScheme radix scheme items
      → AreOfScheme radix scheme (noted radix disk items)
  noted-AreOfScheme scheme [] s = tt
  noted-AreOfScheme scheme (e ∷ items) s = (s.0, noted-AreOfScheme scheme items s.1)

  -- A cache whose writing to disk reports success is read back as it was, with its items and its list of what is on disk, and is in order for the next write, where the cache was in order before (one entry for a key, under the id of its tile, all ids of one scheme, with a file for each item that counts as written), an id is made of its scheme, level and coordinates, no write to an opened file is short, and the serialisation library reads what it wrote.
  pub read_from_disk-write_to_disk :
      (c c' : Cache radix disk.id_of) (f f' : Files radix disk)
      → IsMadeOfParts radix
      → IsWhole disk
      → IsCodec disk.tiles
      → IsCodec disk.metas
      → IsSynced c f
      → write_to_disk radix disk c f ≡ (ok tt, (c', f'))
      → (read_from_disk radix disk f' ≡ (ok tt, c')) × (c'.m_data ≡ c.m_data) × IsSynced c' f'
  unfolding read_from_disk lookup
  read_from_disk-write_to_disk c c' f f' parts whole k l v h =
      let s = write_to_disk-IsSaved c c' f f' parts whole l v h in
      let read = read_items_lem radix disk f'.tile_files c.m_data [] k s.stored v.keyed v.one_key (
        All-map (λ e. disk.id_of e.1.tile ≡ e.0) (λ e. lookup radix.id_discrete [] e.0 ≡ none)
          c.m_data (λ e _. refl) v.keyed) in
      let saved : Cache radix disk.id_of = record {
        m_data = c.m_data;
        m_disk_cached = noted radix disk c.m_data;
      } in
      let result : read_from_disk radix disk f' ≡ (ok tt, saved) =
        rw (read_from_disk, s.meta, read) refl in
      let same : saved ≡ c' = ground (arith, s.same, s.cached) in
      (
        result ∙ ap (λ x. (ok tt, x)) same,
        s.same,
        subst (λ x. IsSynced x f') same
            (record {
              one_key = v.one_key;
              one_key_on_disk = noted-IsDistinctKeys c.m_data v.one_key;
              keyed = v.keyed;
              scheme = v.scheme;
              one_scheme = v.one_scheme;
              one_scheme_on_disk = noted-AreOfScheme v.scheme c.m_data v.one_scheme;
              stored =
                  All-map (IsStored radix disk f'.tile_files)
                    (λ e.
                      is_current radix disk (noted radix disk c.m_data) e.0 e.1.meta ≡ true
                      → IsStored radix disk f'.tile_files e)
                    c.m_data (λ e there _. there) s.stored;
            }),
      )
