-- ===== src/Tile/RateLimiter/Window.antt =====
-- The rate holds in every window, and the queue is served in order.
use alpenite.Prelude.{
  ℕ, ◌+◌, ◌/◌, ◌≤◌, ◌≡◌, refl, sym, ap, ◌∙◌, ◌⊎◌, inl, inr, some, List, [], ◌∷◌, ◌++◌, map, length,
  length-append, append_assoc, append-nil, ltb, leb, if◌then◌else◌, arith, Bool-cases,
}
use alpenite.Tile.RateLimiter.Defs.{
  RateLimiter, window_start, erase_before, send_requests, timer_delay, process_request_queue,
}

-- How many of the times lie at or after the start.
unfoldable pub count_since : ℕ → List ℕ → ℕ
count_since start [] = 0
count_since start (x ∷ xs) = (if ltb x start then 0 else 1) + count_since start xs

pub count_since-append :
    (start : ℕ) (xs ys : List ℕ)
    → count_since start (xs ++ ys) ≡ count_since start xs + count_since start ys
unfolding count_since
count_since-append start [] ys = omega arith
count_since-append start (x ∷ xs) ys = omega (arith, count_since-append start xs ys)

pub count_since-le : (start : ℕ) (xs : List ℕ) → count_since start xs ≤ length xs
unfolding count_since
count_since-le start [] = omega arith
count_since-le start (x ∷ xs) = ground (arith, count_since-le start xs)

-- Times from before the window do not count in it.
pub count_since-erase_before :
    (start later : ℕ) (xs : List ℕ)
    → start ≤ later
    → count_since later (erase_before start xs) ≡ count_since later xs
unfolding count_since erase_before
count_since-erase_before start later [] h = refl
count_since-erase_before start later (x ∷ xs) h =
    let rest = count_since-erase_before start later xs h in
    elim (Bool-cases (ltb x start)) [
      | inl old ↦ rw old (ground arith)
      | inr new ↦ rw new (omega arith)
    ]

length-erase_before : (start : ℕ) (xs : List ℕ) → length (erase_before start xs) ≤ length xs
unfolding erase_before
length-erase_before start [] = omega arith
length-erase_before start (x ∷ xs) = ground (arith, length-erase_before start xs)

-- The time of each request.
abbrev pub times : {A : Type 0} → ℕ → List A → List ℕ
times now = map (λ _. now)

module _ {TileId : Type 0} where
  -- The loop requests a prefix of the queue, notes the time of each request, and stops at the rate.
  record IsSent (now rate : ℕ) (queue : List TileId) (in_flight : List ℕ)
      (r : List ℕ × List TileId × List TileId) : Type 0 where
    flight : r.0 ≡ in_flight ++ times now r.1
    served : r.1 ++ r.2 ≡ queue
    bounded : length in_flight ≤ rate → length r.0 ≤ rate
    busy : (r.2 ≡ []) ⊎ (rate ≤ length r.0)

  send_requests-IsSent :
      (now rate : ℕ) (queue : List TileId) (in_flight : List ℕ)
      → IsSent now rate queue in_flight (send_requests now rate queue in_flight)
  unfolding send_requests
  send_requests-IsSent now rate [] in_flight = record {
    flight = sym (append-nil in_flight);
    served = refl;
    bounded = λ h. h;
    busy = inl refl;
  }
  send_requests-IsSent now rate (id ∷ queue) in_flight =
      let rest = send_requests-IsSent now rate queue (in_flight ++ now ∷ []) in
      elim (Bool-cases (leb rate (length in_flight))) [
        | inl full ↦ rw full (record {
          flight = sym (append-nil in_flight);
          served = refl;
          bounded = λ h. h;
          busy = inr (ground arith);
        })
        | inr free ↦ rw free (record {
          flight = rest.flight ∙ append_assoc in_flight (now ∷ []) _;
          served = ap (λ l. id ∷ l) rest.served;
          bounded = λ h. rest.bounded (ground (arith, length-append in_flight (now ∷ [])));
          busy = rest.busy;
        })
      ]

  -- One run over the queue, in terms of what was in flight and inside the window.
  module _ (now : ℕ) (s : RateLimiter TileId) where
    abbrev pub kept : List ℕ
    kept = erase_before (window_start now s.rate_period_msecs) s.in_flight

    sent : IsSent now s.rate s.request_queue kept (send_requests now s.rate s.request_queue kept)
    sent = send_requests-IsSent now s.rate s.request_queue kept

    armed :
        (queue : List TileId)
        → (queue ≡ [])
          ⊎ (timer_delay s.rate_period_msecs queue ≡ some (1 + s.rate_period_msecs / 10))
    unfolding timer_delay
    armed [] = inl refl
    armed (id ∷ queue) = inr refl

    -- At any time, a run over the queue requests a prefix of the queue and leaves the rest in order; with no more than `rate` requests in flight before, there are no more after; and if something is left, then `rate` requests are in flight and the timer is started with the delay of a tenth of the period and one.
    pub process_request_queue_lem :
        length s.in_flight ≤ s.rate
        → ((process_request_queue now s).requested
              ++ (process_request_queue now s).state.request_queue
            ≡ s.request_queue)
          × (length (process_request_queue now s).state.in_flight ≤ s.rate)
          × (((process_request_queue now s).state.request_queue ≡ [])
              ⊎ ((s.rate ≤ length (process_request_queue now s).state.in_flight)
                  × ((process_request_queue now s).timer ≡ some (1 + s.rate_period_msecs / 10))))
    unfolding process_request_queue
    process_request_queue_lem h =
        let le = length-erase_before (window_start now s.rate_period_msecs) s.in_flight in
        (
          sent.served,
          sent.bounded (omega (arith, le)),
          elim sent.busy [
            | inl e ↦ inl e
            | inr full ↦ elim (armed _) [ inl e ↦ inl e | inr d ↦ inr (full, d) ]
          ],
        )

    pub in_flight-window :
        (process_request_queue now s).state.in_flight
        ≡ kept ++ times now (process_request_queue now s).requested
    unfolding process_request_queue
    in_flight-window = sent.flight

    pub process_request_queue_keeps :
        ((process_request_queue now s).state.rate ≡ s.rate)
        × ((process_request_queue now s).state.rate_period_msecs ≡ s.rate_period_msecs)
    unfolding process_request_queue
    process_request_queue_keeps = (refl, refl)
