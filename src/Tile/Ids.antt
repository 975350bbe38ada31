-- ===== src/Tile/Ids.antt =====
-- What nucleus/tile uses of radix/tile.h, a submodule that is no part of this repository: the type
-- of tile ids, its equality, and the quad tree that the ids form.
use alpenite.Prelude.{
  ℕ, ◌+◌, ◌-◌, ◌*◌, ◌/◌, ◌≡◌, refl, ap, List, [], ◌∷◌, All, length, IsDistinct, arith, ℕ_discrete,
  contains,
}

-- The operations of `radix::tile::Id` that the code calls.
pub record Ids : Type 1 where
  pub TileId : Type 0
  pub id_discrete : Discrete TileId
  pub scheme : TileId → ℕ
  pub zoom_level : TileId → ℕ
  pub coords_x : TileId → ℕ
  pub coords_y : TileId → ℕ
  pub parent : TileId → TileId
  pub children : TileId → List TileId
  pub root : TileId
  pub default_id : TileId

-- The documented behaviour of the quad tree: four different children, one level below their parent.
pub record IsQuadTree (radix : Ids) : Type 0 where
  pub four : (id : radix.TileId) → length (radix.children id) ≡ 4
  pub distinct : (id : radix.TileId) → IsDistinct radix.id_discrete (radix.children id)
  pub parents : (id : radix.TileId) → All (λ c. radix.parent c ≡ id) (radix.children id)
  pub levels :
      (id : radix.TileId)
      → All (λ c. radix.zoom_level c ≡ radix.zoom_level id + 1) (radix.children id)
  pub root_level : radix.zoom_level radix.root ≡ 0

-- An id is made of its scheme, its level and its coordinates.
abbrev pub IsMadeOfParts : Ids → Type 0
IsMadeOfParts radix =
    (a b : radix.TileId)
    → radix.scheme a ≡ radix.scheme b
    → radix.zoom_level a ≡ radix.zoom_level b
    → radix.coords_x a ≡ radix.coords_x b
    → radix.coords_y a ≡ radix.coords_y b
    → a ≡ b

-- An instance for the examples: a level, and the number of the tile in it along a Z curve, which
-- stands for the first coordinate. All ids are of one scheme.
pub record CurveId : Type 0 where
  pub level : ℕ
  pub number : ℕ

unfoldable pub curve_discrete : Discrete CurveId
unfolding ℕ_discrete
curve_discrete a b = elim (ℕ_discrete a.level b.level) [
  | yes p ↦ elim (ℕ_discrete a.number b.number) [
    | yes q ↦ yes (λ i. record { level = p i; number = q i })
    | no q ↦ no (λ e. q (ap (λ (c : CurveId). c.number) e))
  ]
  | no p ↦ no (λ e. p (ap (λ (c : CurveId). c.level) e))
]

abbrev pub at : ℕ → ℕ → CurveId
at level number = record { level = level; number = number }

abbrev pub curve : Ids
curve = record {
  TileId = CurveId;
  id_discrete = curve_discrete;
  scheme = λ _. 0;
  zoom_level = λ id. id.level;
  coords_x = λ id. id.number;
  coords_y = λ _. 0;
  parent = λ id. at (id.level - 1) (id.number / 4);
  children = λ id.
      at (id.level + 1) (id.number * 4)
      ∷ at (id.level + 1) (id.number * 4 + 1)
      ∷ at (id.level + 1) (id.number * 4 + 2)
      ∷ at (id.level + 1) (id.number * 4 + 3)
      ∷ [];
  root = at 0 0;
  default_id = at 0 0;
}

pub curve-IsQuadTree : IsQuadTree curve
unfolding curve_discrete contains
curve-IsQuadTree = record {
  four = λ id. refl;
  distinct = λ id. ground arith;
  parents = λ id. ground arith;
  levels = λ id. ground arith;
  root_level = refl;
}

pub curve-IsMadeOfParts : IsMadeOfParts curve
curve-IsMadeOfParts a b scheme level x y = λ i. record { level = level i; number = x i }
