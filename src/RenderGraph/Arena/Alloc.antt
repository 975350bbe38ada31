-- ===== src/RenderGraph/Arena/Alloc.antt =====
-- What an allocation returns: aligned memory within the current block, in a valid arena.
use alpenite.Prelude.{
  ℕ, ◌+◌, ◌%◌, ◌^◌, ◌≤◌, ◌<◌, ◌≡◌, refl, sym, ap, subst, ◌∙◌, arith, Option, none, some,
  some-injective, ◌⊎◌, inl, inr, List, [], ◌∷◌, ◌++◌, All, All-append, Bool-cases, List-cases,
  Option-cases, leb, leb→le,
}
use alpenite.RenderGraph.Arena.Defs.{
  wrap, minus, align_up, Block, Chain, Arena, new_block, bump, insert_block, advance, alloc_in,
  alloc_raw,
}
use alpenite.RenderGraph.Arena.Layout.{
  wrap_small, minus_zero, align_up_lem, IsBlock, IsEmpty, total-append, IsLaid, IsLaidChain,
  IsValid,
}
use alpenite.RenderGraph.Arena.Bump.{
  IsAddressed, IsSmall, IsServed, new_block_lem, raise_peak_lem, bump_lem,
}

-- The chain after a move to a block that follows the current one.
pub record IsMoved (s : Arena) (c : Chain) (need : ℕ) (r : Arena × Chain) : Type 0 where
  pub laid : IsLaid s.live_bytes r.1
  pub unused : r.1.current.used ≡ 0
  pub enough : need ≤ r.1.current.capacity
  pub same_live : r.0.live_bytes ≡ s.live_bytes
  pub follows : r.1.before ≡ c.before ++ c.current ∷ []

moved-IsLaid :
    (live : ℕ) (c : Chain) (b : Block) (bs : List Block)
    → IsLaid live c
    → IsBlock b
    → b.used ≡ 0
    → All IsBlock bs
    → All IsEmpty bs
    → IsLaid live (record { before = c.before ++ c.current ∷ []; current = b; next = bs })
moved-IsLaid live c b bs l hb e hs clean = record {
  before = All-append IsBlock c.before (c.current ∷ []) l.before (l.current, tt);
  current = hb;
  next = hs;
  clean = clean;
  counted = omega (arith, l.counted, total-append c.before (c.current ∷ []));
}

insert_block_lem :
    (malloc : ℕ → Option ℕ) (s : Arena) (c : Chain) (need : ℕ) {r : Arena × Chain}
    → IsAddressed malloc
    → need + s.block_size + 64 < 2 ^ 64
    → IsLaid s.live_bytes c
    → insert_block malloc s c need ≡ some r
    → IsMoved s c need r
unfolding insert_block
insert_block_lem malloc s c need {r = r} fits small l h =
    elim (Option-cases (new_block malloc s need)) [
      | inl e ↦ absurd (ground arith)
      | inr e ↦
          let f = new_block_lem malloc s need fits small e.1 in
          let made : insert_block malloc s c need
              ≡ some (
                e.0.1,
                record { before = c.before ++ c.current ∷ []; current = e.0.0; next = c.next },
              ) =
            rw (e.1, insert_block) refl in
          subst (IsMoved s c need) (some-injective _ _ (sym made ∙ h)) (record {
            laid = moved-IsLaid s.live_bytes c e.0.0 c.next l f.sound f.unused l.next l.clean;
            unused = f.unused;
            enough = f.enough;
            same_live = f.same_live;
            follows = refl;
          })
    ]

emptied : (b : Block) → IsBlock b → IsBlock (record b { used = 0 })
emptied b h = record { within = omega arith; addressed = h.addressed; aligned = h.aligned }

pub advance_lem :
    (malloc : ℕ → Option ℕ) (s : Arena) (c : Chain) (need : ℕ) {r : Arena × Chain}
    → IsAddressed malloc
    → need + s.block_size + 64 < 2 ^ 64
    → s.live_bytes < 2 ^ 64
    → IsLaid s.live_bytes c
    → advance malloc s c need ≡ some r
    → IsMoved s c need r
unfolding advance
advance_lem malloc s c need {r = r} fits small bound l h =
    let inserted : insert_block malloc s c need ≡ some r → IsMoved s c need r =
      insert_block_lem malloc s c need fits small l in
    elim (List-cases c.next) [
      | inl e ↦ inserted (rw (e, advance) at h)
      | inr (b, (bs, e)) ↦ elim (Bool-cases (leb need b.capacity)) [
        | inr small ↦ inserted (rw (e, advance, small) at h)
        | inl large ↦
            let next : All IsBlock (b ∷ bs) = subst (All IsBlock) e l.next in
            let clean : All IsEmpty (b ∷ bs) = subst (All IsEmpty) e l.clean in
            let unchanged : minus s.live_bytes b.used ≡ s.live_bytes =
              rw (clean.0) (minus_zero s.live_bytes bound) in
            let made : advance malloc s c need
                ≡ some (
                  record s { live_bytes = minus s.live_bytes b.used },
                  record {
                    before = c.before ++ c.current ∷ [];
                    current = record b { used = 0 };
                    next = bs;
                  },
                ) =
              rw (e, advance, large) refl in
            subst (IsMoved s c need) (some-injective _ _ (sym made ∙ h)) (record {
              laid =
                  moved-IsLaid s.live_bytes c (record b { used = 0 }) bs l (emptied b next.0) refl
                    next.1 clean.1;
              unused = refl;
              enough = leb→le need b.capacity large;
              same_live = unchanged;
              follows = refl;
            })
      ]
    ]

moved-IsServed :
    (s : Arena) (c : Chain) (need : ℕ) (t : Arena × Chain) (size align : ℕ)
    → IsMoved s c need t
    → s.live_bytes + size + align < 2 ^ 64
    → 0 < align
    → 16 % align ≡ 0
    → (size + align < 2 ^ 64) × (need ≡ size + align)
    → IsServed size align (bump t.0 t.1 (align_up t.1.current.used align) size)
moved-IsServed s c need t size align m bound pos power h =
    let low = align_up_lem t.1.current.used align pos (omega (arith, m.unused)) in
    bump_lem t.0 t.1 size align (subst (λ live. IsLaid live t.1) (sym m.same_live) m.laid)
      (omega (arith, m.same_live)) pos power (omega (arith, m.unused))
      (omega (arith, m.unused, m.enough))

-- The chain after an allocation: its current block grew, or a block after it became current.
abbrev pub Follows : Chain → Option Chain → Type 0
Follows c none = ⊥
Follows c (some d) =
    ((d.before ≡ c.before)
      × (d.current.address ≡ c.current.address)
      × (d.current.payload ≡ c.current.payload)
      × (d.current.capacity ≡ c.current.capacity)
      × (c.current.used ≤ d.current.used))
    ⊎ (d.before ≡ c.before ++ c.current ∷ [])

pub bump-chain :
    (s : Arena) (c : Chain) (off size : ℕ)
    → off + size < 2 ^ 64
    → (bump s c off size).0.chain
      ≡ some (record c { current = record c.current { used = off + size } })
unfolding bump
bump-chain s c off size small =
    let (peak, live, chain) = raise_peak_lem (record s {
      chain = some (record c { current = record c.current { used = wrap (off + size) } });
      live_bytes = wrap (s.live_bytes + minus (wrap (off + size)) c.current.used);
    }) in
    chain
    ∙ ap (λ n. some (record c { current = record c.current { used = n } }))
        (wrap_small (off + size) small)

pub alloc_in_lem :
    (malloc : ℕ → Option ℕ) (s : Arena) (c : Chain) (size align : ℕ) {r : Arena × ℕ}
    → IsAddressed malloc
    → IsSmall s size align
    → 0 < align
    → 16 % align ≡ 0
    → IsLaid s.live_bytes c
    → alloc_in malloc s c size align ≡ some r
    → IsServed size align r × Follows c r.0.chain
unfolding alloc_in
alloc_in_lem malloc s c size align {r = r} fits small pos power l h =
    let cursor : c.current.used ≤ s.live_bytes = omega (arith, l.counted) in
    let off = align_up c.current.used align in
    let low = align_up_lem c.current.used align pos (omega arith) in
    let fit = wrap_small (off + size) (omega arith) in
    let need = wrap_small (size + align) (omega arith) in
    elim (Bool-cases (leb (wrap (off + size)) c.current.capacity)) [
      | inl here ↦
          let made : alloc_in malloc s c size align ≡ some (bump s c off size) =
            rw (alloc_in, here) refl in
          let room = leb→le _ _ (rw (fit) at here) in
          subst (λ q. IsServed size align q × Follows c q.0.chain)
            (some-injective _ _ (sym made ∙ h))
            (
              bump_lem s c size align l (omega arith) pos power (omega arith) room,
              subst (Follows c) (sym (bump-chain s c off size (omega arith)))
                  (inl (refl, refl, refl, refl, (omega arith))),
            )
      | inr full ↦ elim (Option-cases (advance malloc s c (wrap (size + align)))) [
        | inl e ↦
            let failed : alloc_in malloc s c size align ≡ none = rw (alloc_in, full, e) refl in
            absurd (cc)
        | inr (t, e) ↦
            let moved =
              advance_lem malloc s c (wrap (size + align)) fits (omega arith) (omega arith) l e in
            let made : alloc_in malloc s c size align
                ≡ some (bump t.0 t.1 (align_up t.1.current.used align) size) =
              rw (alloc_in, full, e) refl in
            subst (λ q. IsServed size align q × Follows c q.0.chain)
              (some-injective _ _ (sym made ∙ h))
              (
                moved-IsServed s c (wrap (size + align)) t size align moved (omega arith) pos power
                    ((omega arith), need),
                subst (Follows c)
                    (sym (
                      bump-chain t.0 t.1 (align_up t.1.current.used align) size (
                        let off =
                          align_up_lem t.1.current.used align pos (omega (arith, moved.unused)) in
                        omega (arith, moved.unused))))
                    (inr moved.follows),
              )
      ]
    ]

-- From a valid arena, with an alignment that divides 16, addresses of malloc within 64 bits and sums of sizes that fit them, an allocation that returns leaves a valid arena and gives an aligned address whose bytes are the last ones in use of the current block, within its capacity.
pub alloc_raw-IsValid :
    (malloc : ℕ → Option ℕ) (s : Arena) (size align : ℕ) {r : Arena × ℕ}
    → IsAddressed malloc
    → IsSmall s size align
    → 0 < align
    → 16 % align ≡ 0
    → IsValid s
    → alloc_raw malloc s size align ≡ some r
    → IsServed size align r
unfolding alloc_raw
alloc_raw-IsValid malloc s size align {r = r} fits small pos power v h =
    elim (Option-cases s.chain) [
      | inr (c, e) ↦
          (alloc_in_lem malloc s c size align fits small pos power
            (subst (IsLaidChain s.live_bytes) e v.laid) (rw (e, alloc_raw) at h)).0
      | inl e ↦ elim (Option-cases (new_block malloc s (wrap (size + align)))) [
        | inl f ↦
            let failed : alloc_raw malloc s size align ≡ none = rw (alloc_raw, e, f) refl in
            absurd (cc)
        | inr (b, f) ↦
            let need = wrap_small (size + align) (omega arith) in
            let fresh = new_block_lem malloc s (wrap (size + align)) fits (omega arith) f in
            let first : IsLaid b.1.live_bytes (record { before = []; current = b.0; next = [] }) =
              record {
                before = tt;
                current = fresh.sound;
                next = tt;
                clean = tt;
                counted =
                    let zero_live : s.live_bytes ≡ 0 = subst (IsLaidChain s.live_bytes) e v.laid in
                    omega (arith, fresh.same_live, fresh.unused);
              } in
            (alloc_in_lem malloc b.1 (record { before = []; current = b.0; next = [] }) size align
              fits (omega (arith, fresh.same_live, fresh.same_size)) pos power first
              (rw (e, alloc_raw, f) at h)).0
      ]
    ]
