-- ===== src/Tile/QuadAssembler/Load.antt =====
-- A request for a quad.
use alpenite.Prelude.{
  ◌<◌, ◌≡◌, refl, ◌≢◌, inl, inr, none, some, sym, ap, ◌∙◌, subst, length, lookup, assign, arith,
  lookup-assign_self, lookup-assign_ne, Option-cases, some-injective,
}
use alpenite.Tile.Ids.{Ids}
use alpenite.Tile.Types.{DataQuad, empty_quad}
use alpenite.Tile.QuadAssembler.Defs.{Quads, quad_at, load}
use alpenite.Tile.QuadAssembler.Laws.{IsOpen, IsValid}

module _ (radix : Ids) (Bytes : Type 0) where
  quad_at-some :
      (quads : Quads radix Bytes) (id : radix.TileId) (quad : DataQuad radix.TileId Bytes)
      → lookup radix.id_discrete quads id ≡ some quad
      → quad_at radix Bytes quads id ≡ quad
  unfolding quad_at
  quad_at-some quads id quad e = rw (e, quad_at) refl

  quad_at-none :
      (quads : Quads radix Bytes) (id : radix.TileId)
      → lookup radix.id_discrete quads id ≡ none
      → quad_at radix Bytes quads id ≡ empty_quad radix.default_id
  unfolding quad_at
  quad_at-none quads id e = rw (e, quad_at) refl

  quad_at-room :
      (id : radix.TileId) (quads : Quads radix Bytes)
      → IsValid radix Bytes quads
      → ((quad_at radix Bytes quads id).n_tiles < 4)
        × (length (quad_at radix Bytes quads id).tiles ≡ 4)
  quad_at-room id quads v = elim (Option-cases (lookup radix.id_discrete quads id)) [
    | inl e ↦ rw (quad_at-none quads id e) (omega arith, refl)
    | inr (quad, e) ↦ rw (quad_at-some quads id quad e) ((v id quad e).room, (v id quad e).array)
  ]

  -- In such a map, a request for a quad asks for its four children, opens the quad if it was not open, keeps the tiles that it has if it was, and leaves the other quads as they are.
  pub load_lem :
      (id : radix.TileId) (quads : Quads radix Bytes)
      → IsValid radix Bytes quads
      → IsValid radix Bytes (load radix Bytes id quads).0
        × ((load radix Bytes id quads).1 ≡ radix.children id)
        × (quad_at radix Bytes (load radix Bytes id quads).0 id
            ≡ record (quad_at radix Bytes quads id) { id = id })
        × ((other : radix.TileId)
            → id ≢ other
            → lookup radix.id_discrete (load radix Bytes id quads).0 other
              ≡ lookup radix.id_discrete quads other)
  unfolding load
  load_lem id quads v =
      let quad : DataQuad radix.TileId Bytes = record (quad_at radix Bytes quads id) { id = id } in
      let here = lookup-assign_self radix.id_discrete quads id quad in
      (
        λ j q e. elim (radix.id_discrete id j) [
          | yes same ↦
              let found : quad ≡ q = some-injective quad q (
                sym here
                ∙ (ap (lookup radix.id_discrete (assign radix.id_discrete quads id quad)) same
                    ∙ e)) in
              let old = quad_at-room id quads v in
              subst (IsOpen radix Bytes j) found
                (record { named = same; room = old.0; array = old.1 })
          | no ne ↦ v j q (sym (lookup-assign_ne radix.id_discrete quads id j quad ne) ∙ e)
        ],
        refl,
        quad_at-some (assign radix.id_discrete quads id quad) id quad here,
        λ other ne. lookup-assign_ne radix.id_discrete quads id other quad ne,
      )
