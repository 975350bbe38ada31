-- ===== src/RenderGraph/Arena/Exclusive.antt =====
-- What an arena hands out never overlaps what is still live.
use alpenite.Prelude.{
  ℕ, ◌+◌, ◌^◌, ◌≤◌, ◌<◌, ◌≡◌, refl, sym, subst, ◌∙◌, arith, true, Option, none, some,
  some-injective, inl, inr, List, [], ◌∷◌, ◌++◌, All, Bool-cases, List-cases, Option-cases, leb,
  leb→le, le→leb, map,
}
use alpenite.RenderGraph.Arena.Defs.{
  wrap, minus, align_up, count_block, Block, Chain, Arena, payload_bytes, block_at, new_block, bump,
  insert_block, advance, alloc_in, alloc_raw, sizeof_block, max_align,
}
use alpenite.RenderGraph.Arena.Layout.{wrap_small, align_up_lem, IsLaid, IsLaidChain, IsValid}
use alpenite.RenderGraph.Arena.Bump.{IsAddressed, IsSmall, new_block_lem, payload_bytes_lem}
use alpenite.RenderGraph.Arena.Alloc.{advance_lem, bump-chain}
use alpenite.RenderGraph.Arena.Regions.{
  Region, IsApart, region, free_of, whole, spaces, AllPairs, IsExclusive, within-IsApart,
  IsApart-shrink, IsApart-replace, IsApart-drop, bump-IsExclusive,
}

-- malloc answers with memory that is apart from the live regions and from the blocks at hand.
abbrev pub IsApartMalloc : (ℕ → Option ℕ) → List Region → List Region → Type 0
IsApartMalloc malloc rs qs =
    (n address : ℕ)
    → malloc n ≡ some address
    → All (IsApart (region address n)) rs × All (IsApart (region address n)) qs

-- A new block lies within what malloc answered.
record IsInMalloc (malloc : ℕ → Option ℕ) (b : Block) : Type 0 where
  size : ℕ
  address : ℕ
  answered : malloc size ≡ some address
  low : address ≤ b.payload + b.used
  high : b.payload + b.capacity ≤ address + size

new_block_in :
    (malloc : ℕ → Option ℕ) (s : Arena) (need : ℕ) {b : Block × Arena}
    → IsAddressed malloc
    → need + s.block_size + 64 < 2 ^ 64
    → new_block malloc s need ≡ some b
    → IsInMalloc malloc b.0
unfolding new_block block_at
new_block_in malloc s need {b = b} fits small h =
    let bytes = payload_bytes s need in
    let size = wrap (sizeof_block + max_align + bytes) in
    elim (Option-cases (malloc size)) [
      | inl e ↦ absurd (cc)
      | inr (address, e) ↦
          let fit =
            wrap_small (sizeof_block + max_align + bytes)
              (omega (arith, payload_bytes_lem s need)) in
          let room = fits size address e in
          let (low, high, even) =
            align_up_lem (address + sizeof_block) max_align (omega arith) (omega arith) in
          let made : new_block malloc s need ≡ some (block_at address bytes, count_block s bytes) =
            rw (e, new_block) refl in
          subst (λ q. IsInMalloc malloc q.0) (some-injective _ _ (sym made ∙ h))
            (record {
              size = size;
              address = address;
              answered = e;
              low = omega arith;
              high = omega arith;
            })
    ]

-- The next block becomes the current one, as a whole.
taken :
    (c : Chain) (b : Block) (bs : List Block) (rs : List Region)
    → c.next ≡ b ∷ bs
    → IsExclusive c rs
    → IsExclusive
        (record { before = c.before ++ c.current ∷ []; current = record b { used = 0 }; next = bs })
        rs
unfolding spaces free_of whole
taken c b bs rs e x =
    let qs = map whole bs in
    let apart : All (λ r. All (IsApart r) (free_of c.current ∷ whole b ∷ qs)) rs =
      subst (λ n. All (λ r. All (IsApart r) (free_of c.current ∷ map whole n)) rs) e x.reserved in
    let pairs : AllPairs (free_of c.current ∷ whole b ∷ qs) =
      subst (λ n. AllPairs (free_of c.current ∷ map whole n)) e x.disjoint in
    let left = free_of (record b { used = 0 }) in
    record {
      reserved =
          IsApart-shrink left (whole b) qs rs (omega arith) (omega arith)
            (IsApart-drop (free_of c.current) (whole b ∷ qs) rs apart);
      disjoint =
          (within-IsApart left (whole b) qs (omega arith) (omega arith) pairs.1.0, pairs.1.1);
    }

insert-IsExclusive :
    (malloc : ℕ → Option ℕ) (s : Arena) (c : Chain) (need : ℕ) (rs : List Region)
    {t : Arena × Chain}
    → IsAddressed malloc
    → need + s.block_size + 64 < 2 ^ 64
    → IsApartMalloc malloc rs (spaces c)
    → IsExclusive c rs
    → insert_block malloc s c need ≡ some t
    → IsExclusive t.1 rs
unfolding insert_block spaces free_of region
insert-IsExclusive malloc s c need rs {t = t} fits small new x h =
    elim (Option-cases (new_block malloc s need)) [
      | inl e ↦
          let failed : insert_block malloc s c need ≡ none = rw (e, insert_block) refl in
          absurd (cc)
      | inr (b, e) ↦
          let i = new_block_in malloc s need fits small e in
          let memory = region i.address i.size in
          let (live, others) = new i.size i.address i.answered in
          let qs = map whole c.next in
          let made : insert_block malloc s c need
              ≡ some (
                b.1,
                record { before = c.before ++ c.current ∷ []; current = b.0; next = c.next },
              ) =
            rw (e, insert_block) refl in
          subst (λ q. IsExclusive q.1 rs) (some-injective _ _ (sym made ∙ h))
            (record {
              reserved =
                  IsApart-replace (free_of b.0) (free_of c.current) qs rs
                    (within-IsApart (free_of b.0) memory rs i.low i.high live) x.reserved;
              disjoint =
                  (within-IsApart (free_of b.0) memory qs i.low i.high others.1, x.disjoint.1);
            })
    ]

advance-IsExclusive :
    (malloc : ℕ → Option ℕ) (s : Arena) (c : Chain) (need : ℕ) (rs : List Region)
    {t : Arena × Chain}
    → IsAddressed malloc
    → need + s.block_size + 64 < 2 ^ 64
    → IsApartMalloc malloc rs (spaces c)
    → IsExclusive c rs
    → advance malloc s c need ≡ some t
    → IsExclusive t.1 rs
unfolding advance
advance-IsExclusive malloc s c need rs {t = t} fits small new x h =
    let inserted = insert-IsExclusive malloc s c need rs {t = t} fits small new x in
    elim (List-cases c.next) [
      | inl e ↦ inserted (rw (e, advance) at h)
      | inr (b, (bs, e)) ↦ elim (Bool-cases (leb need b.capacity)) [
        | inr low ↦ inserted (rw (e, advance, low) at h)
        | inl large ↦
            let made : advance malloc s c need
                ≡ some (
                  record s { live_bytes = minus s.live_bytes b.used },
                  record {
                    before = c.before ++ c.current ∷ [];
                    current = record b { used = 0 };
                    next = bs;
                  },
                ) =
              rw (e, advance, large) refl in
            subst (λ q. IsExclusive q.1 rs) (some-injective _ _ (sym made ∙ h))
              (taken c b bs rs e x)
      ]
    ]

-- What the next allocations keep: the new region is apart from the live ones, and all of them from
-- what is left.
abbrev pub IsExclusiveArena : Option Chain → List Region → Type 0
IsExclusiveArena none rs = rs ≡ []
IsExclusiveArena (some c) rs = IsExclusive c rs

abbrev IsKept : ℕ → List Region → Arena × ℕ → Type 0
IsKept size rs r =
    All (IsApart (region r.1 size)) rs × IsExclusiveArena r.0.chain (region r.1 size ∷ rs)

bump-IsKept :
    (s : Arena) (c : Chain) (size off : ℕ) (rs : List Region)
    → IsExclusive c rs
    → c.current.used ≤ off
    → off + size < 2 ^ 64
    → off + size ≤ c.current.capacity
    → IsKept size rs (bump s c off size)
unfolding bump
bump-IsKept s c size off rs x low small room =
    let (apart, kept) = bump-IsExclusive c rs off size x low room in
    (
      apart,
      subst (λ k. IsExclusiveArena k (region (c.current.payload + off) size ∷ rs))
          (sym (bump-chain s c off size small)) kept,
    )

alloc_here :
    (malloc : ℕ → Option ℕ) (s : Arena) (c : Chain) (size align : ℕ) (rs : List Region)
    {r : Arena × ℕ}
    → 0 < align
    → c.current.used + align + size < 2 ^ 64
    → IsExclusive c rs
    → leb (wrap (align_up c.current.used align + size)) c.current.capacity ≡ true
    → alloc_in malloc s c size align ≡ some r
    → IsKept size rs r
unfolding alloc_in
alloc_here malloc s c size align rs {r = r} pos small x here h =
    let off = align_up c.current.used align in
    let low = align_up_lem c.current.used align pos (omega arith) in
    let fit = wrap_small (off + size) (omega arith) in
    let made : alloc_in malloc s c size align ≡ some (bump s c off size) =
      rw (alloc_in, here) refl in
    subst (IsKept size rs) (some-injective _ _ (sym made ∙ h))
      (bump-IsKept s c size off rs x low.0 (omega arith) (leb→le _ _ (rw (fit) at here)))

alloc_in_exclusive :
    (malloc : ℕ → Option ℕ) (s : Arena) (c : Chain) (size align : ℕ) (rs : List Region)
    {r : Arena × ℕ}
    → IsAddressed malloc
    → IsSmall s size align
    → 0 < align
    → IsLaid s.live_bytes c
    → IsApartMalloc malloc rs (spaces c)
    → IsExclusive c rs
    → alloc_in malloc s c size align ≡ some r
    → IsKept size rs r
unfolding alloc_in
alloc_in_exclusive malloc s c size align rs {r = r} fits small pos l new x h =
    let cursor : c.current.used ≤ s.live_bytes = omega (arith, l.counted) in
    elim (Bool-cases (leb (wrap (align_up c.current.used align + size)) c.current.capacity)) [
      | inl here ↦ alloc_here malloc s c size align rs pos (omega arith) x here h
      | inr full ↦ elim (Option-cases (advance malloc s c (wrap (size + align)))) [
        | inl e ↦
            let failed : alloc_in malloc s c size align ≡ none = rw (alloc_in, full, e) refl in
            absurd (cc)
        | inr (t, e) ↦
            let need = wrap_small (size + align) (omega arith) in
            let m =
              advance_lem malloc s c (wrap (size + align)) fits (omega arith) (omega arith) l e in
            let low = align_up_lem t.1.current.used align pos (omega (arith, m.unused)) in
            let made : alloc_in malloc s c size align
                ≡ some (bump t.0 t.1 (align_up t.1.current.used align) size) =
              rw (alloc_in, full, e) refl in
            subst (IsKept size rs) (some-injective _ _ (sym made ∙ h)) (
              bump-IsKept t.0 t.1 size (align_up t.1.current.used align) rs
                (advance-IsExclusive malloc s c (wrap (size + align)) rs fits (omega arith) new x e)
                low.0 (omega (arith, m.unused)) (omega (arith, m.unused, m.enough)))
      ]
    ]

abbrev pub spaces_of : Option Chain → List Region
spaces_of none = []
spaces_of (some c) = spaces c

-- The first allocation, out of a block of its own.
first_exclusive :
    (malloc : ℕ → Option ℕ) (s : Arena) (size align : ℕ) (rs : List Region) (b : Block × Arena)
    {r : Arena × ℕ}
    → IsAddressed malloc
    → IsSmall s size align
    → 0 < align
    → rs ≡ []
    → new_block malloc s (wrap (size + align)) ≡ some b
    → alloc_in malloc b.1 (record { before = []; current = b.0; next = [] }) size align ≡ some r
    → IsKept size rs r
unfolding spaces
first_exclusive malloc s size align rs b fits small pos nothing f h =
    let need = wrap_small (size + align) (omega arith) in
    let fresh = new_block_lem malloc s (wrap (size + align)) fits (omega arith) f in
    let c : Chain = record { before = []; current = b.0; next = [] } in
    let low = align_up_lem b.0.used align pos (omega (arith, fresh.unused)) in
    let fit = wrap_small (align_up b.0.used align + size) (omega (arith, fresh.unused)) in
    alloc_here malloc b.1 c size align rs pos (omega (arith, fresh.unused))
      (subst (IsExclusive c) (sym nothing) (record { reserved = tt; disjoint = (tt, tt) }))
      (le→leb _ _ (omega (arith, fresh.enough, fresh.unused))) h

-- An allocation hands out memory that is apart from every live region, and leaves memory for later allocations that is apart from it and from the live regions, where the arena is valid and malloc answers with memory within 64 bits that is apart from what the arena holds, and the sums of sizes fit 64 bits.
pub alloc_raw-exclusive :
    (malloc : ℕ → Option ℕ) (s : Arena) (size align : ℕ) (rs : List Region) {r : Arena × ℕ}
    → IsAddressed malloc
    → IsSmall s size align
    → 0 < align
    → IsValid s
    → IsApartMalloc malloc rs (spaces_of s.chain)
    → IsExclusiveArena s.chain rs
    → alloc_raw malloc s size align ≡ some r
    → All (IsApart (region r.1 size)) rs × IsExclusiveArena r.0.chain (region r.1 size ∷ rs)
unfolding alloc_raw
alloc_raw-exclusive malloc s size align rs {r = r} fits small pos v new x h =
    elim (Option-cases s.chain) [
      | inr (c, e) ↦
          alloc_in_exclusive malloc s c size align rs fits small pos
            (subst (IsLaidChain s.live_bytes) e v.laid)
            (subst (λ k. IsApartMalloc malloc rs (spaces_of k)) e new)
            (subst (λ k. IsExclusiveArena k rs) e x) (rw (e, alloc_raw) at h)
      | inl e ↦ elim (Option-cases (new_block malloc s (wrap (size + align)))) [
        | inl f ↦
            let failed : alloc_raw malloc s size align ≡ none = rw (alloc_raw, e, f) refl in
            absurd (cc)
        | inr (b, f) ↦
            first_exclusive malloc s size align rs b fits small pos
              (subst (λ k. IsExclusiveArena k rs) e x) f (rw (e, alloc_raw, f) at h)
      ]
    ]
