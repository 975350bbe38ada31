-- ===== src/Tile/SlotLimiter/Laws.antt =====
-- What a SlotLimiter guarantees: never more slots than the limit, nothing requested twice, nothing
-- forgotten, and the queue is served in order.
use alpenite.Prelude.{
  ◌≤◌, ◌+◌, ◌≡◌, refl, sym, ap, ◌∙◌, ◌⊎◌, inl, inr, true, false, List, [], ◌∷◌, ◌++◌, All, length,
  contains, erase, IsDistinct, All-append, append-nil, append_assoc, arith, Bool-cases,
  length-append, contains-append_left, contains-append_none, contains_self, snoc-IsDistinct,
  contains-erase_none, insert_absent, apart_one, leb,
}
use alpenite.Tile.SlotLimiter.Defs.{SlotLimiter, request_one, request_all, request_quads}

module _ {TileId : Type 0} (dec : Discrete TileId) where
  -- Slots within the limit, no id twice, and nobody waits while a slot is free.
  pub record IsValid (s : SlotLimiter TileId) : Type 0 where
    pub bounded : length s.in_flight ≤ s.limit
    pub distinct : IsDistinct dec s.in_flight
    pub queued : IsDistinct dec s.request_queue
    pub apart : All (λ id. contains dec s.in_flight id ≡ false) s.request_queue
    pub busy : (s.request_queue ≡ []) ⊎ (s.limit ≤ length s.in_flight)

  -- Ids that are in neither of two lists are in no list made of them.
  pub apart_both :
      (xs ys ids : List TileId)
      → All (λ id. contains dec xs id ≡ false) ids
      → All (λ id. contains dec ys id ≡ false) ids
      → All (λ id. contains dec (xs ++ ys) id ≡ false) ids
  apart_both xs ys [] h k = tt
  apart_both xs ys (id ∷ ids) (h, hs) (k, ks) =
      (contains-append_none dec xs ys id h k, apart_both xs ys ids hs ks)

  pub apart_erase :
      (xs : List TileId) (a : TileId) (ids : List TileId)
      → All (λ id. contains dec xs id ≡ false) ids
      → All (λ id. contains dec (erase dec xs a) id ≡ false) ids
  apart_erase xs a [] h = tt
  apart_erase xs a (id ∷ ids) (h, hs) = (contains-erase_none dec xs a id h, apart_erase xs a ids hs)

  pub apart_snoc :
      (xs : List TileId) (a : TileId) (ids : List TileId)
      → All (λ id. contains dec xs id ≡ false) ids
      → contains dec ids a ≡ false
      → All (λ id. contains dec (xs ++ a ∷ []) id ≡ false) ids
  apart_snoc xs a ids h k = apart_both xs (a ∷ []) ids h (apart_one dec a ids k)

module _ {TileId : Type 0} (dec : Discrete TileId) where
  abbrev Result : Type 0
  Result = SlotLimiter TileId × List TileId

  -- The three ways through the body of the loop.
  request_one_cases {ℓ} :
      (P : Result → Type ℓ) (s : SlotLimiter TileId) (id : TileId)
      → (contains dec s.in_flight id ≡ true → P (s, []))
      → (contains dec s.in_flight id ≡ false
          → s.limit ≤ length s.in_flight
          → P (record s { request_queue = s.request_queue ++ id ∷ [] }, []))
      → (contains dec s.in_flight id ≡ false
          → length s.in_flight + 1 ≤ s.limit
          → P (record s { in_flight = s.in_flight ++ id ∷ [] }, id ∷ []))
      → P (request_one dec s id)
  unfolding request_one
  request_one_cases P s id old wait start = elim (Bool-cases (contains dec s.in_flight id)) [
    | inl e ↦ rw e (old e)
    | inr e ↦ elim (Bool-cases (leb s.limit (length s.in_flight))) [
      | inl full ↦ rw (e, full) (wait e (ground arith))
      | inr free ↦ rw (e, free, insert_absent dec s.in_flight id e) (start e (ground arith))
    ]
  ]

  -- What the loop keeps: the state is valid, and the ids still to come are not in the queue.
  record Going (s : SlotLimiter TileId) (ids : List TileId) : Type 0 where
    valid : IsValid dec s
    todo : IsDistinct dec ids
    fresh : All (λ id. contains dec s.request_queue id ≡ false) ids

  request_one-Going :
      (s : SlotLimiter TileId) (id : TileId) (ids : List TileId)
      → Going s (id ∷ ids)
      → Going (request_one dec s id).0 ids
  request_one-Going s id ids g =
      request_one_cases (λ r. Going r.0 ids) s id
        (λ _. record { valid = v; todo = g.todo.1; fresh = g.fresh.1 })
        (λ e full. record {
          valid = record {
            bounded = v.bounded;
            distinct = v.distinct;
            queued = snoc-IsDistinct dec s.request_queue id v.queued g.fresh.0;
            apart = All-append _ s.request_queue (id ∷ []) v.apart (e, tt);
            busy = inr full;
          };
          todo = g.todo.1;
          fresh = apart_snoc dec s.request_queue id ids g.fresh.1 g.todo.0;
        })
        (λ e free.
          let none_waits : s.request_queue ≡ [] = ground arith in
          record {
            valid = record {
              bounded = omega (arith, length-append s.in_flight (id ∷ []));
              distinct = snoc-IsDistinct dec s.in_flight id v.distinct e;
              queued = v.queued;
              apart = rw none_waits tt;
              busy = inl none_waits;
            };
            todo = g.todo.1;
            fresh = g.fresh.1;
          })
    where
      v : IsValid dec s
      v = g.valid

  request_all-IsValid :
      (ids : List TileId) (s : SlotLimiter TileId)
      → Going s ids
      → IsValid dec (request_all dec ids s).0
  unfolding request_all
  request_all-IsValid [] s g = g.valid
  request_all-IsValid (id ∷ ids) s g =
      request_all-IsValid ids (request_one dec s id).0 (request_one-Going s id ids g)

  request_one-length :
      (s : SlotLimiter TileId) (id : TileId) → (request_one dec s id).0.limit ≡ s.limit
  unfolding request_one
  request_one-length s id = ground arith

  -- The ids requested are what is added to the set of quads in flight.
  request_one-in_flight :
      (s : SlotLimiter TileId) (id : TileId)
      → (request_one dec s id).0.in_flight ≡ s.in_flight ++ (request_one dec s id).1
  request_one-in_flight s id =
      request_one_cases (λ r. r.0.in_flight ≡ s.in_flight ++ r.1) s id
        (λ _. sym (append-nil s.in_flight)) (λ _ _. sym (append-nil s.in_flight)) (λ _ _. refl)

  request_all-in_flight :
      (ids : List TileId) (s : SlotLimiter TileId)
      → (request_all dec ids s).0.in_flight ≡ s.in_flight ++ (request_all dec ids s).1
  unfolding request_all
  request_all-in_flight [] s = sym (append-nil s.in_flight)
  request_all-in_flight (id ∷ ids) s =
      request_all-in_flight ids (request_one dec s id).0
      ∙ (ap (λ l. l ++ (request_all dec ids (request_one dec s id).0).1)
            (request_one-in_flight s id)
          ∙ append_assoc s.in_flight _ _)

  -- An id is known if it is on its way or waits.
  abbrev pub IsKnown : SlotLimiter TileId → TileId → Type 0
  IsKnown s id = (contains dec s.in_flight id ≡ true) ⊎ (contains dec s.request_queue id ≡ true)

  request_one-IsKnown : (s : SlotLimiter TileId) (id : TileId) → IsKnown (request_one dec s id).0 id
  request_one-IsKnown s id =
      request_one_cases (λ r. IsKnown r.0 id) s id (λ e. inl e)
        (λ _ _. inr (contains_self dec s.request_queue id))
        (λ _ _. inl (contains_self dec s.in_flight id))

  request_one_keeps :
      (s : SlotLimiter TileId) (id j : TileId) → IsKnown s j → IsKnown (request_one dec s id).0 j
  request_one_keeps s id j k =
      request_one_cases (λ r. IsKnown r.0 j) s id (λ _. k)
        (λ _ _. elim k [
          | inl a ↦ inl a
          | inr b ↦ inr (contains-append_left dec s.request_queue (id ∷ []) j b)
        ])
        (λ _ _. elim k [
          | inl a ↦ inl (contains-append_left dec s.in_flight (id ∷ []) j a)
          | inr b ↦ inr b
        ])

  request_all_keeps :
      (ids : List TileId) (s : SlotLimiter TileId) (j : TileId)
      → IsKnown s j
      → IsKnown (request_all dec ids s).0 j
  unfolding request_all
  request_all_keeps [] s j k = k
  request_all_keeps (id ∷ ids) s j k =
      request_all_keeps ids (request_one dec s id).0 j (request_one_keeps s id j k)

  -- A prefix of the ids is handled first; the rest of the loop forgets none of them.
  request_all-IsKnown :
      (ids : List TileId) (s : SlotLimiter TileId) → All (IsKnown (request_all dec ids s).0) ids
  unfolding request_all
  request_all-IsKnown [] s = tt
  request_all-IsKnown (id ∷ ids) s =
      let s' = (request_one dec s id).0 in
      (request_all_keeps ids s' id (request_one-IsKnown s id), request_all-IsKnown ids s')

  All-fresh : (ids : List TileId) → All (λ id. contains dec [] id ≡ false) ids
  unfolding contains
  All-fresh [] = tt
  All-fresh (id ∷ ids) = (refl, All-fresh ids)

  -- A request with different ids leaves a valid limiter, in which every id asked for is on its way or
  -- waits. The ids of the signals are exactly those added to the set of quads in flight, so no quad
  -- in flight is requested again.
  pub request_quads_lem :
      (s : SlotLimiter TileId) (ids : List TileId)
      → IsValid dec s
      → IsDistinct dec ids
      → IsValid dec (request_quads dec s ids).0
        × All (IsKnown (request_quads dec s ids).0) ids
        × ((request_quads dec s ids).0.in_flight ≡ s.in_flight ++ (request_quads dec s ids).1)
  unfolding request_quads
  request_quads_lem s ids v d =
      let s' : SlotLimiter TileId = record s { request_queue = [] } in
      (
        request_all-IsValid ids s' (record {
          valid = record {
            bounded = v.bounded;
            distinct = v.distinct;
            queued = tt;
            apart = tt;
            busy = inl refl;
          };
          todo = d;
          fresh = All-fresh ids;
        }),
        request_all-IsKnown ids s',
        request_all-in_flight ids s',
      )
