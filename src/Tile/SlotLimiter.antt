-- ===== src/Tile/SlotLimiter.antt =====
-- nucleus/tile/SlotLimiter.h and .cpp: at most `limit` quads are on their way at a time, the rest
-- waits in a queue. A call returns the new state and the ids of the `quad_requested` signals that it
-- emits, in order; `deliver_quad` also returns the tile that it passes on by `quad_delivered`, which
-- it emits first. Receivers of the signals run after the call. An unordered set is a list without
-- repetition.
mod Defs
mod Laws
mod Deliver
pub use Defs.{SlotLimiter}
unfoldable pub use Defs.{
  init, set_limit, slots_taken, request_one, request_all, request_quads, take_next, deliver_quad,
}
pub use Laws.*
pub use Deliver.*
