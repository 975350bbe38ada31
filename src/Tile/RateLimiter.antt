-- ===== src/Tile/RateLimiter.antt =====
-- nucleus/tile/RateLimiter.h and .cpp: at most `rate` quads are requested in a period, the rest waits
-- in a queue. A call is given the time that `time_since_epoch` returns, and returns the new state, the
-- ids of the `quad_requested` signals in order, and the delay with which it starts the update timer,
-- if it does. Receivers of the signals run after the call.
pub mod Defs
pub mod Window
pub mod History
