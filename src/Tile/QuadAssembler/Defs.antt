-- ===== src/Tile/QuadAssembler/Defs.antt =====
-- The state of a QuadAssembler and its slots.
use alpenite.Prelude.{
  ℕ, zero, suc, Option, none, some, List, [], ◌∷◌, length, ltb, ◌==◌, if◌then◌else◌, lookup, assign,
  remove,
}
use alpenite.Tile.Ids.{Ids}
use alpenite.Tile.Types.{Data, DataQuad, empty_quad}

-- `tiles[i] = tile`; nothing is written out of range.
unfoldable pub set_tile : {A : Type 0} → List A → ℕ → A → List A
set_tile [] i t = []
set_tile (x ∷ xs) zero t = t ∷ xs
set_tile (x ∷ xs) (suc i) t = x ∷ set_tile xs i t

module _ (radix : Ids) (Bytes : Type 0) where
  abbrev pub Quads : Type 0
  Quads = List (radix.TileId × DataQuad radix.TileId Bytes)

  pub record Delivered : Type 0 where
    pub quads : Quads
    pub loaded : Option (DataQuad radix.TileId Bytes)

  unfoldable pub n_items_in_flight : Quads → ℕ
  n_items_in_flight quads = length quads

  -- `m_quads[id]`, which makes an empty quad where there is none.
  unfoldable pub quad_at : Quads → radix.TileId → DataQuad radix.TileId Bytes
  quad_at quads id = elim (lookup radix.id_discrete quads id) [
    | none ↦ empty_quad radix.default_id
    | some quad ↦ quad
  ]

  unfoldable pub load : radix.TileId → Quads → Quads × List radix.TileId
  unfolding quad_at
  load id quads =
      let quad = quad_at quads id in
      (assign radix.id_discrete quads id (record quad { id = id }), radix.children id)

  -- The quad with one more tile. The code indexes an array of four with its count.
  unfoldable pub add_tile :
      Data radix.TileId Bytes → DataQuad radix.TileId Bytes → DataQuad radix.TileId Bytes
  unfolding set_tile
  add_tile tile quad = record quad {
    tiles = set_tile quad.tiles quad.n_tiles tile;
    n_tiles = suc quad.n_tiles;
  }

  -- The tile goes into the quad found under the key. `none` is the write past the end of the array,
  -- which the language leaves undefined.
  unfoldable pub deliver_to :
      Data radix.TileId Bytes
      → Quads
      → radix.TileId
      → DataQuad radix.TileId Bytes
      → Option Delivered
  unfolding add_tile
  deliver_to tile quads key quad =
      let full = add_tile tile quad in
      if ltb quad.n_tiles 4
      then (if full.n_tiles == 4
          then some (record {
            quads = remove radix.id_discrete (assign radix.id_discrete quads key full) full.id;
            loaded = some full;
          })
          else some (record { quads = assign radix.id_discrete quads key full; loaded = none }))
      else none

  unfoldable pub deliver_tile : Data radix.TileId Bytes → Quads → Option Delivered
  unfolding quad_at deliver_to
  deliver_tile tile quads =
      deliver_to tile quads (radix.parent tile.id) (quad_at quads (radix.parent tile.id))
