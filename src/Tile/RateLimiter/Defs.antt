-- ===== src/Tile/RateLimiter/Defs.antt =====
-- The state of a RateLimiter and its slots.
use alpenite.Prelude.{
  ℕ, ◌+◌, ◌-◌, ◌/◌, ◌%◌, ◌^◌, Option, none, some, List, [], ◌∷◌, ◌++◌, length, ltb, leb,
  if◌then◌else◌,
}

pub record RateLimiter (TileId : Type 0) : Type 0 where
  pub rate : ℕ
  pub rate_period_msecs : ℕ
  pub request_queue : List TileId
  pub in_flight : List ℕ

pub record Processed (TileId : Type 0) : Type 0 where
  pub state : RateLimiter TileId
  pub requested : List TileId
  pub timer : Option ℕ

-- `current_msecs - m_rate_period_msecs`, in uint64_t.
unfoldable pub window_start : ℕ → ℕ → ℕ
window_start now period = (now + (2 ^ 64 - period)) % 2 ^ 64

-- `std::erase_if` of the times before the window.
unfoldable pub erase_before : ℕ → List ℕ → List ℕ
erase_before start [] = []
erase_before start (x ∷ xs) =
    let rest = erase_before start xs in if ltb x start then rest else x ∷ rest

module _ {TileId : Type 0} where
  unfoldable pub init : RateLimiter TileId
  init = record { rate = 100; rate_period_msecs = 1000; request_queue = []; in_flight = [] }

  -- The assertions that both numbers fit an int are conditions on the caller.
  unfoldable pub set_rate_limit : RateLimiter TileId → ℕ → ℕ → RateLimiter TileId
  set_rate_limit s rate period = record s { rate = rate; rate_period_msecs = period }

  unfoldable pub queue_size : RateLimiter TileId → ℕ
  queue_size s = length s.request_queue

  -- The loop over the queue: the times in flight, the ids requested, and the queue that is left.
  unfoldable pub send_requests : ℕ → ℕ → List TileId → List ℕ → List ℕ × List TileId × List TileId
  send_requests now rate [] in_flight = (in_flight, [], [])
  send_requests now rate (id ∷ queue) in_flight =
      let (flight, requested, left) = send_requests now rate queue (in_flight ++ now ∷ []) in
      if leb rate (length in_flight)
      then (in_flight, [], id ∷ queue)
      else (flight, id ∷ requested, left)

  -- The delay of the timer, when something is left in the queue.
  unfoldable pub timer_delay : ℕ → List TileId → Option ℕ
  timer_delay period [] = none
  timer_delay period (id ∷ queue) = some (1 + period / 10)

  unfoldable pub process_request_queue : ℕ → RateLimiter TileId → Processed TileId
  unfolding send_requests erase_before window_start timer_delay
  process_request_queue now s =
      let (flight, requested, left) =
        send_requests now s.rate s.request_queue
          (erase_before (window_start now s.rate_period_msecs) s.in_flight) in
      record {
        state = record s { in_flight = flight; request_queue = left };
        requested = requested;
        timer = timer_delay s.rate_period_msecs left;
      }

  unfoldable pub request_quad : ℕ → TileId → RateLimiter TileId → Processed TileId
  unfolding process_request_queue
  request_quad now id s =
      process_request_queue now (record s { request_queue = s.request_queue ++ id ∷ [] })
