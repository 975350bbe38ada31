-- ===== src/Tile/QuadAssembler/Laws.antt =====
-- What a QuadAssembler guarantees.
use alpenite.Prelude.{
  ℕ, zero, suc, ◌<◌, ◌≡◌, refl, ◌≢◌, ◌⊎◌, inl, inr, true, false, none, some, List, [], ◌∷◌, ◌++◌,
  sym, ap, ◌∙◌, subst, length, take, ltb, ◌==◌, lookup, assign, remove, arith, lookup-assign_self,
  lookup-assign_ne, lookup-remove_self, lookup-remove_ne, some-injective, ℕ_discrete,
}
use alpenite.Tile.Ids.{Ids}
use alpenite.Tile.Types.{Data, DataQuad}
use alpenite.Tile.QuadAssembler.Defs.{
  Quads, Delivered, quad_at, set_tile, add_tile, deliver_to, deliver_tile,
}

take-set_tile :
    {A : Type 0} (xs : List A) (n : ℕ) (t : A)
    → n < length xs
    → take (suc n) (set_tile xs n t) ≡ take n xs ++ t ∷ []
unfolding set_tile
take-set_tile [] n t h = absurd (omega arith)
take-set_tile (x ∷ xs) zero t h = refl
take-set_tile (x ∷ xs) (suc n) t h = ap (λ l. x ∷ l) (take-set_tile xs n t (omega arith))

length-set_tile : {A : Type 0} (xs : List A) (n : ℕ) (t : A) → length (set_tile xs n t) ≡ length xs
unfolding set_tile
length-set_tile [] n t = refl
length-set_tile (x ∷ xs) zero t = refl
length-set_tile (x ∷ xs) (suc n) t = ap suc (length-set_tile xs n t)

take_all : {A : Type 0} (xs : List A) → take (length xs) xs ≡ xs
take_all [] = refl
take_all (x ∷ xs) = ap (λ l. x ∷ l) (take_all xs)

module _ (radix : Ids) (Bytes : Type 0) where
  -- A quad that is being assembled: it was asked for, and misses a tile.
  pub record IsOpen (id : radix.TileId) (quad : DataQuad radix.TileId Bytes) : Type 0 where
    pub named : quad.id ≡ id
    pub room : quad.n_tiles < 4
    pub array : length quad.tiles ≡ 4

  -- Every quad in the map is being assembled.
  abbrev pub IsValid : Quads radix Bytes → Type 0
  IsValid quads =
      (id : radix.TileId) (quad : DataQuad radix.TileId Bytes)
      → lookup radix.id_discrete quads id ≡ some quad
      → IsOpen id quad

  -- The tiles that have come for a quad, in their order.
  abbrev pub received : DataQuad radix.TileId Bytes → List (Data radix.TileId Bytes)
  received quad = take quad.n_tiles quad.tiles

  -- The quad stays, with the tile behind those it had.
  pub record Stays (quads : Quads radix Bytes) (quad : DataQuad radix.TileId Bytes)
      (tile : Data radix.TileId Bytes) (d : Delivered radix Bytes) : Type 0 where
    pub silent : d.loaded ≡ none
    pub more : DataQuad radix.TileId Bytes
    pub there : lookup radix.id_discrete d.quads (radix.parent tile.id) ≡ some more
    pub grown : received more ≡ received quad ++ tile ∷ []

  -- The quad is passed on with its four tiles, and leaves the map.
  pub record Leaves (quads : Quads radix Bytes) (quad : DataQuad radix.TileId Bytes)
      (tile : Data radix.TileId Bytes) (d : Delivered radix Bytes) : Type 0 where
    pub full : DataQuad radix.TileId Bytes
    pub loaded : d.loaded ≡ some full
    pub named : full.id ≡ radix.parent tile.id
    pub complete : full.tiles ≡ received quad ++ tile ∷ []
    pub four : length full.tiles ≡ 4
    pub gone : lookup radix.id_discrete d.quads (radix.parent tile.id) ≡ none

  module _ (quads : Quads radix Bytes) (tile : Data radix.TileId Bytes)
      (quad : DataQuad radix.TileId Bytes) (valid : IsValid quads)
      (asked : lookup radix.id_discrete quads (radix.parent tile.id) ≡ some quad) where
    key : radix.TileId
    key = radix.parent tile.id

    whole : DataQuad radix.TileId Bytes
    whole = add_tile radix Bytes tile quad

    state : IsOpen (radix.parent tile.id) quad
    state = valid (radix.parent tile.id) quad asked

    whole-received : received whole ≡ received quad ++ tile ∷ []
    unfolding whole add_tile
    whole-received =
        take-set_tile quad.tiles quad.n_tiles tile (omega (arith, state.room, state.array))

    asked_at : quad_at radix Bytes quads key ≡ quad
    unfolding key quad_at
    asked_at = rw (asked, quad_at) refl

    result : Delivered radix Bytes
    result = record { quads = assign radix.id_discrete quads key whole; loaded = none }

    last : Delivered radix Bytes
    last = record {
      quads = remove radix.id_discrete (assign radix.id_discrete quads key whole) whole.id;
      loaded = some whole;
    }

    deliver-found : deliver_tile radix Bytes tile quads ≡ deliver_to radix Bytes tile quads key quad
    unfolding deliver_tile key
    deliver-found = ap (deliver_to radix Bytes tile quads key) asked_at

    deliver-more : quad.n_tiles < 3 → deliver_to radix Bytes tile quads key quad ≡ some result
    unfolding deliver_to result whole
    deliver-more h =
        let small : ltb quad.n_tiles 4 ≡ true = ground arith in
        let not_full : (suc quad.n_tiles == 4) ≡ false = ground arith in rw (small, not_full) refl

    deliver-last : quad.n_tiles ≡ 3 → deliver_to radix Bytes tile quads key quad ≡ some last
    unfolding deliver_to last whole
    deliver-last h =
        let small : ltb quad.n_tiles 4 ≡ true = ground arith in
        let full : (suc quad.n_tiles == 4) ≡ true = ground arith in rw (small, full) refl

    whole-named : whole.id ≡ key
    unfolding whole key add_tile
    whole-named = state.named

    -- The quads of other keys are left as they are.
    result-other :
        (id : radix.TileId)
        → key ≢ id
        → lookup radix.id_discrete result.quads id ≡ lookup radix.id_discrete quads id
    unfolding result
    result-other id ne = lookup-assign_ne radix.id_discrete quads key id whole ne

    last-other :
        (id : radix.TileId)
        → key ≢ id
        → lookup radix.id_discrete last.quads id ≡ lookup radix.id_discrete quads id
    unfolding last
    last-other id ne =
        lookup-remove_ne radix.id_discrete (assign radix.id_discrete quads key whole) whole.id id
          (λ e. ne (sym whole-named ∙ e))
        ∙ lookup-assign_ne radix.id_discrete quads key id whole ne

    result-there : lookup radix.id_discrete result.quads key ≡ some whole
    unfolding result
    result-there = lookup-assign_self radix.id_discrete quads key whole

    last-gone : lookup radix.id_discrete last.quads key ≡ none
    unfolding last
    last-gone =
        subst (λ k. lookup radix.id_discrete last.quads k ≡ none) whole-named
          (lookup-remove_self radix.id_discrete (assign radix.id_discrete quads key whole) whole.id)

    whole-four : length whole.tiles ≡ 4
    unfolding whole add_tile
    whole-four = length-set_tile quad.tiles quad.n_tiles tile ∙ state.array

    whole-count : whole.n_tiles ≡ suc quad.n_tiles
    unfolding whole add_tile
    whole-count = refl

    whole-IsOpen : quad.n_tiles < 3 → IsOpen key whole
    unfolding whole add_tile
    whole-IsOpen h = record { named = whole-named; room = omega arith; array = whole-four }

    result-IsValid : quad.n_tiles < 3 → IsValid result.quads
    result-IsValid h id q e = elim (radix.id_discrete key id) [
      | yes same ↦
          let found : whole ≡ q =
            some-injective whole q
              (sym result-there ∙ (ap (lookup radix.id_discrete result.quads) same ∙ e)) in
          subst (IsOpen id) found (subst (λ k. IsOpen k whole) same (whole-IsOpen h))
      | no ne ↦ valid id q (sym (result-other id ne) ∙ e)
    ]

    last-IsValid : IsValid last.quads
    last-IsValid id q e = elim (radix.id_discrete key id) [
      | yes same ↦ absurd (cc (last-gone, same, e))
      | no ne ↦ valid id q (sym (last-other id ne) ∙ e)
    ]

    whole_complete : quad.n_tiles ≡ 3 → whole.tiles ≡ received quad ++ tile ∷ []
    whole_complete h =
        let count : length whole.tiles ≡ whole.n_tiles = omega (arith, whole-four, whole-count) in
        sym (take_all whole.tiles) ∙ (ap (λ n. take n whole.tiles) count ∙ whole-received)

    -- Let every quad in the map have been asked for and miss a tile, and let a tile of such a quad arrive. Then the array is not overrun and the map stays so. The quads of other ids are left as they are. The quad of the tile either stays, silently, with the tile behind those it had, or it is passed on, under its id, with the three tiles it had and this one, and leaves the map.
    pub deliver_tile_lem :
        (d : Delivered radix Bytes) × (deliver_tile radix Bytes tile quads ≡ some d)
        × IsValid d.quads
        × ((id : radix.TileId)
            → radix.parent tile.id ≢ id
            → lookup radix.id_discrete d.quads id ≡ lookup radix.id_discrete quads id)
        × (Stays quads quad tile d ⊎ Leaves quads quad tile d)
    unfolding key
    deliver_tile_lem = elim (ℕ_discrete quad.n_tiles 3) [
      | yes three ↦ (
        last,
        deliver-found ∙ deliver-last three,
        last-IsValid,
        last-other,
        inr (record {
          full = whole;
          loaded = unfold last in refl;
          named = whole-named;
          complete = whole_complete three;
          four = whole-four;
          gone = last-gone;
        }),
      )
      | no fewer ↦
          let small : quad.n_tiles < 3 = omega (arith, state.room, fewer) in
          (
            result,
            deliver-found ∙ deliver-more small,
            result-IsValid small,
            result-other,
            inl (record {
              silent = unfold result in refl;
              more = whole;
              there = result-there;
              grown = whole-received;
            }),
          )
    ]
