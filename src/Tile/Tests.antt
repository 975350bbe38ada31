-- ===== src/Tile/Tests.antt =====
-- Concrete states for the theorems on the tile subsystem.
use alpenite.Prelude.{
  ℕ, ◌≡◌, refl, ◌↔◌, inr, true, List, [], ◌∷◌, ◌++◌, All, contains, erase, insert, IsDistinct,
  foldl, ℕ_discrete, arith,
}
use alpenite.Tile.Types.{
  status_value, Status, NetworkInfo, join, Bounds, IsGood, join_lem, DataQuad, empty_quad,
}
use alpenite.Tile.SlotLimiter.{
  SlotLimiter, init, request_quads, deliver_quad, IsValid, IsKnown, request_quads_lem,
  deliver_quad_lem, Reach, requests, start, next, Reach-IsValid,
}
use alpenite.Prelude.{◌-◌, ◌^◌, ◌<◌, ◌≤◌, ◌⊎◌, ◌≢◌, some, length, lookup, assign}
use alpenite.Tile.Ids.{CurveId, at, curve, curve_discrete}
use alpenite.Tile.Types.{Data}
use alpenite.Tile.RateLimiter.Defs.{RateLimiter, process_request_queue, request_quad}
use alpenite.Tile.RateLimiter.Window.{process_request_queue_lem, times, count_since}
use alpenite.Tile.RateLimiter.History.{History, History-window}
use alpenite.Tile.QuadAssembler
use alpenite.Tile.QuadAssembler.Defs.{Quads, Delivered, quad_at, load, deliver_tile}
use alpenite.Tile.QuadAssembler.Laws.{Stays, Leaves, deliver_tile_lem}
use alpenite.Tile.QuadAssembler.Load.{load_lem}

abbrev infos : List NetworkInfo
infos =
    record { status = Status.good; timestamp = 7 }
    ∷ record { status = Status.not_found; timestamp = 4 }
    ∷ []

join_lem_example :
    All (Bounds (join infos)) infos
    × ((worst earliest : ℕ)
        → earliest < 2 ^ 64
        → All (λ i. (status_value i.status ≤ worst) × (earliest ≤ i.timestamp)) infos
        → (status_value (join infos).status ≤ worst) × (earliest ≤ (join infos).timestamp))
    × (IsGood (join infos) ↔ All IsGood infos)
join_lem_example = join_lem infos

-- Two slots, both taken, and one quad that waits.
abbrev busy : SlotLimiter ℕ
busy = record { limit = 2; in_flight = 1 ∷ 2 ∷ []; request_queue = 3 ∷ [] }

busy-IsValid : IsValid ℕ_discrete busy
unfolding contains ℕ_discrete
busy-IsValid = record {
  bounded = omega arith;
  distinct = (refl, (refl, tt));
  queued = (refl, tt);
  apart = (refl, tt);
  busy = inr (omega arith);
}

abbrev quad : ℕ → DataQuad ℕ ℕ
quad n = record (empty_quad 0) { id = n }

ids-IsDistinct : IsDistinct ℕ_discrete (4 ∷ 2 ∷ [])
unfolding contains ℕ_discrete
ids-IsDistinct = (refl, (refl, tt))

request_quads_lem_example :
    IsValid ℕ_discrete (request_quads ℕ_discrete busy (4 ∷ 2 ∷ [])).0
    × All (IsKnown ℕ_discrete (request_quads ℕ_discrete busy (4 ∷ 2 ∷ [])).0) (4 ∷ 2 ∷ [])
    × ((request_quads ℕ_discrete busy (4 ∷ 2 ∷ [])).0.in_flight
        ≡ (1 ∷ 2 ∷ []) ++ (request_quads ℕ_discrete busy (4 ∷ 2 ∷ [])).1)
request_quads_lem_example =
    request_quads_lem ℕ_discrete busy (4 ∷ 2 ∷ []) busy-IsValid ids-IsDistinct

taken_1 : contains ℕ_discrete (1 ∷ 2 ∷ []) 1 ≡ true
unfolding contains ℕ_discrete
taken_1 = refl

deliver_quad_lem_example :
    IsValid ℕ_discrete (deliver_quad ℕ_discrete busy (quad 1)).0
    × ((deliver_quad ℕ_discrete busy (quad 1)).1 ≡ quad 1)
    × ((deliver_quad ℕ_discrete busy (quad 1)).2
          ++ (deliver_quad ℕ_discrete busy (quad 1)).0.request_queue
        ≡ 3 ∷ [])
    × ((deliver_quad ℕ_discrete busy (quad 1)).0.in_flight
        ≡ foldl
            (insert ℕ_discrete)
            (erase ℕ_discrete (1 ∷ 2 ∷ []) 1)
            (deliver_quad ℕ_discrete busy (quad 1)).2)
deliver_quad_lem_example = deliver_quad_lem ℕ_discrete busy (quad 1) busy-IsValid taken_1

asked : Reach ℕ_discrete (request_quads ℕ_discrete init (4 ∷ 2 ∷ [])).0
asked = next start (requests (4 ∷ 2 ∷ []) ids-IsDistinct)

Reach-IsValid_example : IsValid ℕ_discrete (request_quads ℕ_discrete init (4 ∷ 2 ∷ [])).0
Reach-IsValid_example = Reach-IsValid ℕ_discrete asked

-- Two quads in ten milliseconds: the third waits.
abbrev limiter : RateLimiter ℕ
limiter = record {
  rate = 2;
  rate_period_msecs = 10;
  request_queue = 1 ∷ 2 ∷ 3 ∷ [];
  in_flight = [];
}

process_request_queue_lem_example :
    ((process_request_queue 50 limiter).requested
        ++ (process_request_queue 50 limiter).state.request_queue
      ≡ 1 ∷ 2 ∷ 3 ∷ [])
    × (length (process_request_queue 50 limiter).state.in_flight ≤ 2)
    × (((process_request_queue 50 limiter).state.request_queue ≡ [])
        ⊎ ((2 ≤ length (process_request_queue 50 limiter).state.in_flight)
            × ((process_request_queue 50 limiter).timer ≡ some 2)))
process_request_queue_lem_example = process_request_queue_lem 50 limiter (omega arith)

abbrev fresh : RateLimiter ℕ
fresh = record { rate = 2; rate_period_msecs = 10; request_queue = []; in_flight = [] }

one_asked :
    History 2 10 50
      (request_quad 50 7 fresh).state
      ([] ++ times 50 (request_quad 50 7 fresh).requested)
one_asked = History.requests History.start (omega arith) (omega arith) (omega arith) 7

History-window_example :
    count_since (50 - 10) ([] ++ times 50 (request_quad 50 7 fresh).requested) ≤ 2
History-window_example = History-window 2 10 one_asked

abbrev no_quads : Quads curve ℕ
no_quads = []

no_quads-IsValid : QuadAssembler.Laws.IsValid curve ℕ no_quads
unfolding lookup
no_quads-IsValid id q e = absurd (cc)

abbrev quad_id : CurveId
quad_id = at 3 5

load_lem_example :
    QuadAssembler.Laws.IsValid curve ℕ (load curve ℕ quad_id no_quads).0
    × ((load curve ℕ quad_id no_quads).1 ≡ curve.children quad_id)
    × (quad_at curve ℕ (load curve ℕ quad_id no_quads).0 quad_id
        ≡ record (quad_at curve ℕ no_quads quad_id) { id = quad_id })
    × ((other : CurveId)
        → quad_id ≢ other
        → lookup curve_discrete (load curve ℕ quad_id no_quads).0 other
          ≡ lookup curve_discrete no_quads other)
load_lem_example = load_lem curve ℕ quad_id no_quads no_quads-IsValid

abbrev tile_of : CurveId → Data CurveId ℕ
tile_of id = record {
  id = id;
  network_info = record { status = Status.good; timestamp = 3 };
  bytes = some 9;
}

abbrev opened : DataQuad CurveId ℕ
opened = record (empty_quad (at 0 0)) { id = quad_id }

abbrev loading : Quads curve ℕ
loading = (quad_id, opened) ∷ []

loading-IsValid : QuadAssembler.Laws.IsValid curve ℕ loading
unfolding load quad_at lookup assign
loading-IsValid = load_lem_example.0

quad_opened : lookup curve_discrete loading quad_id ≡ some opened
unfolding lookup curve_discrete ℕ_discrete
quad_opened = refl

deliver_tile_lem_example :
    (d : Delivered curve ℕ) × (deliver_tile curve ℕ (tile_of (at 4 21)) loading ≡ some d)
    × QuadAssembler.Laws.IsValid curve ℕ d.quads
    × ((id : CurveId)
        → quad_id ≢ id
        → lookup curve_discrete d.quads id ≡ lookup curve_discrete loading id)
    × (Stays curve ℕ loading opened (tile_of (at 4 21)) d
        ⊎ Leaves curve ℕ loading opened (tile_of (at 4 21)) d)
deliver_tile_lem_example =
    deliver_tile_lem curve ℕ loading (tile_of (at 4 21)) opened loading-IsValid quad_opened
