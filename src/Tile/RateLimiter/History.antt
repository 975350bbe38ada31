-- ===== src/Tile/RateLimiter/History.antt =====
-- The rate over every history of calls.
use alpenite.Prelude.{
  ℕ, ◌+◌, ◌-◌, ◌^◌, ◌≤◌, ◌<◌, ◌≡◌, refl, sym, ap, ◌∙◌, subst, List, [], ◌∷◌, ◌++◌, length, arith,
}
use alpenite.Tile.RateLimiter.Window.{
  times, count_since, count_since-append, count_since-le, count_since-erase_before, kept,
  in_flight-window, process_request_queue_lem, process_request_queue_keeps,
}
use alpenite.Tile.RateLimiter.Defs.{RateLimiter, window_start, process_request_queue, request_quad}

window_start_lem :
    (now period : ℕ) → period ≤ now → now < 2 ^ 64 → window_start now period ≡ now - period
unfolding window_start
window_start_lem now period h k = omega arith

module _ {TileId : Type 0} (rate period : ℕ) where
  -- A limiter with its rate and period set, the last time at which it ran, and the times of all
  -- requests so far.
  pub data History : ℕ → RateLimiter TileId → List ℕ → Type 0 where
    start :
        History 0
          (record { rate = rate; rate_period_msecs = period; request_queue = []; in_flight = [] })
          []
    requests :
        {before now : ℕ} {s : RateLimiter TileId} {log : List ℕ}
        → History before s log
        → before ≤ now
        → period ≤ now
        → now < 2 ^ 64
        → (id : TileId)
        → History now
            (request_quad now id s).state
            (log ++ times now (request_quad now id s).requested)
    times_out :
        {before now : ℕ} {s : RateLimiter TileId} {log : List ℕ}
        → History before s log
        → before ≤ now
        → period ≤ now
        → now < 2 ^ 64
        → History now
            (process_request_queue now s).state
            (log ++ times now (process_request_queue now s).requested)

  -- The times in flight are those of the log, as far as the window reaches.
  record IsLogged (now : ℕ) (s : RateLimiter TileId) (log : List ℕ) : Type 0 where
    rates : s.rate ≡ rate
    periods : s.rate_period_msecs ≡ period
    bounded : length s.in_flight ≤ rate
    logged : (w : ℕ) → now - period ≤ w → count_since w log ≡ count_since w s.in_flight

  process-IsLogged :
      (before now : ℕ) (s : RateLimiter TileId) (log : List ℕ)
      → before ≤ now
      → period ≤ now
      → now < 2 ^ 64
      → IsLogged before s log
      → IsLogged now
          (process_request_queue now s).state
          (log ++ times now (process_request_queue now s).requested)
  process-IsLogged before now s log order le fits v =
      let same : (w : ℕ)
          → now - period ≤ w
          → count_since w (kept now s) ≡ count_since w s.in_flight =
        λ w h. count_since-erase_before (window_start now s.rate_period_msecs) w s.in_flight (
          subst (λ p. window_start now p ≤ w) (sym v.periods)
            (subst (λ b. b ≤ w) (sym (window_start_lem now period le fits)) h)) in
      let (_, bounded, _) = process_request_queue_lem now s (omega (arith, v.rates, v.bounded)) in
      record {
        rates = (process_request_queue_keeps now s).0 ∙ v.rates;
        periods = (process_request_queue_keeps now s).1 ∙ v.periods;
        bounded = omega (arith, v.rates, bounded);
        logged = λ w h.
            let new = times now (process_request_queue now s).requested in
            count_since-append w log new
            ∙ (ap (λ n. n + count_since w new) (v.logged w (omega arith) ∙ sym (same w h))
                ∙ (sym (count_since-append w (kept now s) new)
                    ∙ sym (ap (count_since w) (in_flight-window now s))));
      }

  queued-IsLogged :
      (now : ℕ) (s : RateLimiter TileId) (log : List ℕ) (queue : List TileId)
      → IsLogged now s log
      → IsLogged now (record s { request_queue = queue }) log
  queued-IsLogged now s log queue v = record {
    rates = v.rates;
    periods = v.periods;
    bounded = v.bounded;
    logged = v.logged;
  }

  History-IsLogged :
      {now : ℕ} {s : RateLimiter TileId} {log : List ℕ} → History now s log → IsLogged now s log
  unfolding request_quad
  History-IsLogged start = record {
    rates = refl;
    periods = refl;
    bounded = omega arith;
    logged = λ w h. refl;
  }
  History-IsLogged (requests {before} {now} {s} {log} h order le fits id) =
      process-IsLogged before now (record s { request_queue = s.request_queue ++ id ∷ [] }) log
        order le fits
        (queued-IsLogged before s log (s.request_queue ++ id ∷ []) (History-IsLogged h))
  History-IsLogged (times_out {before} {now} {s} {log} h order le fits) =
      process-IsLogged before now s log order le fits (History-IsLogged h)

  -- Let the rate and the period be set once and the clock never run backward, with times of at least the period and below `2 ^ 64`. After any sequence of requests and timeouts, no more than `rate` quads have been requested since one period before the last of them.
  pub History-window :
      {now : ℕ} {s : RateLimiter TileId} {log : List ℕ}
      → History now s log
      → count_since (now - period) log ≤ rate
  History-window {now} {s} {log} h =
      let v = History-IsLogged h in
      omega (
        arith,
        v.logged (now - period) (omega arith),
        v.bounded,
        count_since-le (now - period) s.in_flight,
      )
