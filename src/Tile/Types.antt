-- ===== src/Tile/Types.antt =====
-- nucleus/tile/types.h: a tile and its download, and the quad of four tiles that travels through the
-- tile pipeline.
use alpenite.Prelude.{
  ℕ, ◌-◌, ◌^◌, ◌≤◌, ◌<◌, ◌≡◌, refl, ◌↔◌, Option, none, List, [], ◌∷◌, map, All, leb, if◌then◌else◌,
  arith,
}
use Prim.Native.Nat.{min}

pub data Status : Type 0 where
  good not_found network_error : Status

-- The enumerators' values, by which `std::max` compares.
abbrev pub status_value : Status → ℕ
status_value Status.good = 0
status_value Status.not_found = 1
status_value Status.network_error = 2

pub record NetworkInfo : Type 0 where
  pub status : Status
  pub timestamp : ℕ

-- `std::max(a, b)` returns `b` only if `a < b`.
pub max_status : Status → Status → Status
max_status a b = if leb (status_value b) (status_value a) then a else b

abbrev pub uint64_max : ℕ
uint64_max = 2 ^ 64 - 1

-- The body of the loop.
pub join_one : NetworkInfo → NetworkInfo → NetworkInfo
unfolding max_status
join_one acc i = record {
  status = max_status acc.status i.status;
  timestamp = min acc.timestamp i.timestamp;
}

pub join_from : NetworkInfo → List NetworkInfo → NetworkInfo
join_from acc [] = acc
join_from acc (i ∷ infos) = join_from (join_one acc i) infos

unfoldable pub join : List NetworkInfo → NetworkInfo
unfolding join_from join_one
join = join_from (record { status = Status.good; timestamp = uint64_max })

-- `std::shared_ptr<QByteArray>` may be null.
pub record Data (TileId Bytes : Type 0) : Type 0 where
  pub id : TileId
  pub network_info : NetworkInfo
  pub bytes : Option Bytes

pub record DataQuad (TileId Bytes : Type 0) : Type 0 where
  pub id : TileId
  pub n_tiles : ℕ
  pub tiles : List (Data TileId Bytes)

module _ {TileId Bytes : Type 0} where
  -- A value-initialised tile, as `tiles = {}` holds four times.
  abbrev pub empty_tile : TileId → Data TileId Bytes
  empty_tile default_id = record {
    id = default_id;
    network_info = record { status = Status.good; timestamp = 0 };
    bytes = none;
  }

  abbrev pub empty_quad : TileId → DataQuad TileId Bytes
  empty_quad default_id = record {
    id = default_id;
    n_tiles = 0;
    tiles =
        empty_tile default_id
        ∷ empty_tile default_id
        ∷ empty_tile default_id
        ∷ empty_tile default_id
        ∷ [];
  }

  unfoldable pub quad_network_info : DataQuad TileId Bytes → NetworkInfo
  unfolding join
  quad_network_info quad = join (map (λ (t : Data TileId Bytes). t.network_info) quad.tiles)

abbrev pub Bounds : NetworkInfo → NetworkInfo → Type 0
Bounds joined i =
    (status_value i.status ≤ status_value joined.status) × (joined.timestamp ≤ i.timestamp)

join_one-Bounds : (acc i : NetworkInfo) → Bounds (join_one acc i) acc × Bounds (join_one acc i) i
unfolding join_one
join_one-Bounds acc i = ground arith

join_from-Bounds :
    (acc : NetworkInfo) (infos : List NetworkInfo)
    → Bounds (join_from acc infos) acc × All (Bounds (join_from acc infos)) infos
unfolding join_from
join_from-Bounds acc [] = omega arith
join_from-Bounds acc (i ∷ infos) =
    let (b, rest) = join_from-Bounds (join_one acc i) infos in
    let (left, right) = join_one-Bounds acc i in
    ((omega arith, omega arith), ((omega arith, omega arith), rest))

abbrev pub IsGood : NetworkInfo → Type 0
IsGood i = i.status ≡ Status.good

join_from-IsGood :
    (acc : NetworkInfo) (infos : List NetworkInfo)
    → IsGood acc
    → All IsGood infos
    → IsGood (join_from acc infos)
unfolding join_from
join_from-IsGood acc [] a h = a
join_from-IsGood acc (i ∷ infos) a (g, h) =
    join_from-IsGood (join_one acc i) infos (unfold join_one in ground arith) h

All-IsGood :
    (joined : NetworkInfo) (infos : List NetworkInfo)
    → IsGood joined
    → All (Bounds joined) infos
    → All IsGood infos
All-IsGood joined [] g b = tt
All-IsGood joined (i ∷ infos) g (b, bs) = (ground arith, All-IsGood joined infos g bs)

-- Nothing better than the worst part, and nothing earlier than the earliest.
join_from-least :
    (acc : NetworkInfo) (infos : List NetworkInfo) (worst earliest : ℕ)
    → (status_value acc.status ≤ worst) × (earliest ≤ acc.timestamp)
    → All (λ i. (status_value i.status ≤ worst) × (earliest ≤ i.timestamp)) infos
    → (status_value (join_from acc infos).status ≤ worst)
      × (earliest ≤ (join_from acc infos).timestamp)
unfolding join_from
join_from-least acc [] worst earliest a h = a
join_from-least acc (i ∷ infos) worst earliest a h =
    join_from-least (join_one acc i) infos worst earliest (unfold join_one in ground arith) h.1

-- The status of a join is the worst of the parts, and its time the earliest of them (good, and the largest uint64_t, where there is no part): it bounds every part, and so does no better status and no later time; so it is good if and only if every part is.
pub join_lem :
    (infos : List NetworkInfo)
    → All (Bounds (join infos)) infos
      × ((worst earliest : ℕ)
          → earliest < 2 ^ 64
          → All (λ i. (status_value i.status ≤ worst) × (earliest ≤ i.timestamp)) infos
          → (status_value (join infos).status ≤ worst) × (earliest ≤ (join infos).timestamp))
      × (IsGood (join infos) ↔ All IsGood infos)
unfolding join
join_lem infos =
    let first : NetworkInfo = record { status = Status.good; timestamp = uint64_max } in
    let b = (join_from-Bounds first infos).1 in
    (
      b,
      λ worst earliest fits h.
          join_from-least first infos worst earliest ((omega arith), (omega arith)) h,
      (λ g. All-IsGood _ infos g b, join_from-IsGood _ infos refl),
    )
