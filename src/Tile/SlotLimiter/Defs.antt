-- ===== src/Tile/SlotLimiter/Defs.antt =====
-- The state of a SlotLimiter and its slots.
use alpenite.Prelude.{ℕ, List, [], ◌∷◌, ◌++◌, length, leb, contains, insert, erase, if◌then◌else◌}
use alpenite.Tile.Types.{DataQuad}

pub record SlotLimiter (TileId : Type 0) : Type 0 where
  pub limit : ℕ
  pub in_flight : List TileId
  pub request_queue : List TileId

unfoldable pub init : {TileId : Type 0} → SlotLimiter TileId
init = record { limit = 16; in_flight = []; request_queue = [] }

-- `Q_ASSERT(new_limit > 0)` is a condition on the caller.
unfoldable pub set_limit : {TileId : Type 0} → SlotLimiter TileId → ℕ → SlotLimiter TileId
set_limit s new_limit = record s { limit = new_limit }

unfoldable pub slots_taken : {TileId : Type 0} → SlotLimiter TileId → ℕ
slots_taken s = length s.in_flight

module _ {TileId : Type 0} (dec : Discrete TileId) where
  -- The body of the loop over `ids`.
  unfoldable pub request_one : SlotLimiter TileId → TileId → SlotLimiter TileId × List TileId
  request_one s id =
      if contains dec s.in_flight id
      then (s, [])
      else if leb s.limit (length s.in_flight)
      then (record s { request_queue = s.request_queue ++ id ∷ [] }, [])
      else (record s { in_flight = insert dec s.in_flight id }, id ∷ [])

  unfoldable pub request_all : List TileId → SlotLimiter TileId → SlotLimiter TileId × List TileId
  request_all [] s = (s, [])
  request_all (id ∷ ids) s =
      let (s', now) = request_one s id in
      let (s'', later) = request_all ids s' in (s'', now ++ later)

  unfoldable pub request_quads : SlotLimiter TileId → List TileId → SlotLimiter TileId × List TileId
  unfolding request_all request_one
  request_quads s ids = request_all ids (record s { request_queue = [] })

  unfoldable pub take_next : SlotLimiter TileId → List TileId → SlotLimiter TileId × List TileId
  take_next s [] = (s, [])
  take_next s (front ∷ queue) =
      (record s { in_flight = insert dec s.in_flight front; request_queue = queue }, front ∷ [])

  unfoldable pub deliver_quad :
      {Bytes : Type 0}
      → SlotLimiter TileId
      → DataQuad TileId Bytes
      → SlotLimiter TileId × DataQuad TileId Bytes × List TileId
  unfolding take_next
  deliver_quad s tile =
      let (s', requested) =
        take_next (record s { in_flight = erase dec s.in_flight tile.id }) s.request_queue in
      (s', tile, requested)
