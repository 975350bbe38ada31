-- ===== src/Tile/Cache/Paths.antt =====
-- The names of the files of tiles: tiles of one scheme have names of their own.
use alpenite.Prelude.{ℕ, ◌≡◌, ◌≢◌, sym, ap, ◌∙◌, List, [], ◌∷◌, All, All-zip, IsDistinctKeys}
use alpenite.Tile.Ids.{Ids, IsMadeOfParts}
use alpenite.Tile.Cache.Disk.{TilePath, tile_path}

-- Two ids of one scheme whose tiles have one file.
pub path_lem :
    (radix : Ids) (a b : radix.TileId)
    → IsMadeOfParts radix
    → radix.scheme a ≡ radix.scheme b
    → tile_path radix a ≡ tile_path radix b
    → a ≡ b
unfolding tile_path
path_lem radix a b parts scheme e =
    parts a b scheme (ap (λ (p : TilePath). p.zoom) e) (ap (λ (p : TilePath). p.x) e)
      (ap (λ (p : TilePath). p.y) e)

module _ (radix : Ids) {V : Type 0} where
  -- All ids are of the scheme.
  abbrev pub AreOfScheme : ℕ → List (radix.TileId × V) → Type 0
  AreOfScheme scheme = All (λ e. radix.scheme e.0 ≡ scheme)

  -- No two entries have one file.
  abbrev pub IsDistinctPaths : List (radix.TileId × V) → Type 0
  IsDistinctPaths [] = Unit
  IsDistinctPaths ((id, v) ∷ items) =
      All (λ e. tile_path radix e.0 ≢ tile_path radix id) items × IsDistinctPaths items

  pub distinct_paths :
      (scheme : ℕ) (items : List (radix.TileId × V))
      → IsMadeOfParts radix
      → AreOfScheme scheme items
      → IsDistinctKeys radix.id_discrete items
      → IsDistinctPaths items
  distinct_paths scheme [] parts s d = tt
  distinct_paths scheme ((id, v) ∷ items) parts s d = (
    All-zip (λ e. e.0 ≢ id) (λ e. radix.scheme e.0 ≡ scheme)
        (λ e. tile_path radix e.0 ≢ tile_path radix id) items
        (λ e ne same path. ne (path_lem radix e.0 id parts (same ∙ sym s.0) path)) d.0 s.1,
    distinct_paths scheme items parts s.1 d.1,
  )
