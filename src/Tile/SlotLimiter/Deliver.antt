-- ===== src/Tile/SlotLimiter/Deliver.antt =====
-- The delivery of a quad, and every history of calls.
use alpenite.Prelude.{
  ◌≤◌, ◌+◌, ◌≡◌, refl, ◌⊎◌, inl, inr, true, false, List, [], ◌∷◌, ◌++◌, All, length, contains,
  insert, erase, IsDistinct, foldl, arith, length-append, snoc-IsDistinct, erase-IsDistinct,
  length-erase, insert_absent,
}
use alpenite.Tile.Types.{DataQuad}
use alpenite.Tile.SlotLimiter.Defs.{SlotLimiter, init, request_quads, take_next, deliver_quad}
use alpenite.Tile.SlotLimiter.Laws.{IsValid, apart_snoc, apart_erase, request_quads_lem}

module _ {TileId : Type 0} (dec : Discrete TileId) where
  take_next-IsValid :
      (s : SlotLimiter TileId) (queue : List TileId)
      → s.request_queue ≡ queue
      → length s.in_flight + 1 ≤ s.limit
      → IsDistinct dec s.in_flight
      → IsDistinct dec queue
      → All (λ id. contains dec s.in_flight id ≡ false) queue
      → (queue ≡ []) ⊎ (s.limit ≤ length s.in_flight + 1)
      → IsValid dec (take_next dec s queue).0
  unfolding take_next
  take_next-IsValid s [] e room d q a b = record {
    bounded = omega arith;
    distinct = d;
    queued = rw e tt;
    apart = rw e tt;
    busy = inl e;
  }
  take_next-IsValid s (front ∷ queue) e room d q a b =
      rw (insert_absent dec s.in_flight front a.0) (record {
        bounded = omega (arith, length-append s.in_flight (front ∷ []));
        distinct = snoc-IsDistinct dec s.in_flight front d a.0;
        queued = q.1;
        apart = apart_snoc dec s.in_flight front queue a.1 q.0;
        busy = ground (arith, length-append s.in_flight (front ∷ []));
      })

  take_next-parts :
      (s : SlotLimiter TileId) (queue : List TileId)
      → s.request_queue ≡ queue
      → ((take_next dec s queue).1 ++ (take_next dec s queue).0.request_queue ≡ queue)
        × ((take_next dec s queue).0.in_flight
            ≡ foldl (insert dec) s.in_flight (take_next dec s queue).1)
  unfolding take_next
  take_next-parts s [] e = (e, refl)
  take_next-parts s (front ∷ queue) e = (refl, refl)

  -- The delivery of a quad that is on its way keeps a valid limiter valid. It passes the quad on,
  -- frees its slot, and gives that slot to the head of the queue: the ids requested followed by
  -- the queue that is left are the queue that was.
  pub deliver_quad_lem :
      {Bytes : Type 0} (s : SlotLimiter TileId) (tile : DataQuad TileId Bytes)
      → IsValid dec s
      → contains dec s.in_flight tile.id ≡ true
      → IsValid dec (deliver_quad dec s tile).0
        × ((deliver_quad dec s tile).1 ≡ tile)
        × ((deliver_quad dec s tile).2 ++ (deliver_quad dec s tile).0.request_queue
            ≡ s.request_queue)
        × ((deliver_quad dec s tile).0.in_flight
            ≡ foldl (insert dec) (erase dec s.in_flight tile.id) (deliver_quad dec s tile).2)
  unfolding deliver_quad
  deliver_quad_lem s tile v here =
      let left = erase dec s.in_flight tile.id in
      let s' : SlotLimiter TileId = record s { in_flight = left } in
      let parts = take_next-parts s' s.request_queue refl in
      let less = length-erase dec s.in_flight tile.id here in
      (
        take_next-IsValid s' s.request_queue refl (omega (arith, v.bounded))
            (erase-IsDistinct dec s.in_flight tile.id v.distinct) v.queued
            (apart_erase dec s.in_flight tile.id s.request_queue v.apart)
            (elim v.busy [ inl e ↦ inl e | inr h ↦ inr (omega arith) ]),
        refl,
        parts.0,
        parts.1,
      )

  -- A call of the limiter: the scheduler asks for different quads, or a quad on its way arrives.
  pub data Step (s : SlotLimiter TileId) : SlotLimiter TileId → Type 1 where
    requests : (ids : List TileId) → IsDistinct dec ids → Step s (request_quads dec s ids).0
    delivers :
        (Bytes : Type 0) (tile : DataQuad TileId Bytes)
        → contains dec s.in_flight tile.id ≡ true
        → Step s (deliver_quad dec s tile).0

  pub data Reach : SlotLimiter TileId → Type 1 where
    start : Reach init
    next : {s t : SlotLimiter TileId} → Reach s → Step s t → Reach t

  Step-IsValid : {s t : SlotLimiter TileId} → Step s t → IsValid dec s → IsValid dec t
  Step-IsValid {s = s} (requests ids d) v = (request_quads_lem dec s ids v d).0
  Step-IsValid {s = s} (delivers Bytes tile here) v = (deliver_quad_lem s tile v here).0

  -- After any history of requests for different quads and of deliveries of quads on their way, no
  -- more than `limit` slots are taken, no quad is twice on its way, and none waits while a slot is
  -- free.
  pub Reach-IsValid : {s : SlotLimiter TileId} → Reach s → IsValid dec s
  unfolding init
  Reach-IsValid start = record {
    bounded = omega arith;
    distinct = tt;
    queued = tt;
    apart = tt;
    busy = inl refl;
  }
  Reach-IsValid (next r st) = Step-IsValid st (Reach-IsValid r)
