-- ===== src/RenderGraph/Arena/Bump.antt =====
-- A new block, and an allocation out of a block with room for it.
use native.Mathlib.Nat.{add-mod, zero-mod}
use alpenite.Prelude.{
  ℕ, zero, suc, ◌+◌, ◌*◌, ◌/◌, ◌%◌, ◌^◌, ◌≤◌, ◌<◌, ◌≡◌, refl, sym, subst, ◌∙◌, arith, Option, none,
  some, some-injective, inl, inr, Option-cases,
}
use alpenite.RenderGraph.Arena.Defs.{
  wrap, minus, align_up, Block, Chain, Arena, payload_bytes, block_at, count_block, new_block,
  raise_peak, bump, sizeof_block, max_align,
}
use alpenite.RenderGraph.Arena.Layout.{
  wrap_small, minus_lem, align_up_lem, IsBlock, IsLaid, IsLaidChain, IsValid,
}

-- What malloc hands out lies in the address space.
abbrev pub IsAddressed : (ℕ → Option ℕ) → Type 0
IsAddressed malloc = (n address : ℕ) → malloc n ≡ some address → address + n < 2 ^ 64

-- The sums of a request stay within a size_t.
abbrev pub IsSmall : Arena → ℕ → ℕ → Type 0
IsSmall s size align = s.live_bytes + size + align + s.block_size + 64 < 2 ^ 64

pub record IsFresh (s : Arena) (need : ℕ) (b : Block × Arena) : Type 0 where
  pub sound : IsBlock b.0
  pub unused : b.0.used ≡ 0
  pub enough : need ≤ b.0.capacity
  pub same_live : b.1.live_bytes ≡ s.live_bytes
  pub same_size : b.1.block_size ≡ s.block_size

block_at_lem :
    (address bytes : ℕ) → address + (48 + bytes) < 2 ^ 64 → IsBlock (block_at address bytes)
unfolding block_at
block_at_lem address bytes h =
    let (low, high, even) =
      align_up_lem (address + sizeof_block) max_align (omega arith) (omega arith) in
    record { within = omega arith; addressed = omega arith; aligned = even }

pub payload_bytes_lem :
    (s : Arena) (need : ℕ)
    → (need ≤ payload_bytes s need) × (payload_bytes s need ≤ need + s.block_size)
unfolding payload_bytes
payload_bytes_lem s need = ground arith

-- A block made at an address that malloc answered.
made_lem :
    (s : Arena) (need address : ℕ)
    → need + s.block_size + 64 < 2 ^ 64
    → address + wrap (sizeof_block + max_align + payload_bytes s need) < 2 ^ 64
    → IsFresh s need (block_at address (payload_bytes s need), count_block s (payload_bytes s need))
unfolding block_at count_block
made_lem s need address small h =
    let bytes = payload_bytes_lem s need in
    record {
      sound = block_at_lem address (payload_bytes s need) (
          let e = wrap_small (sizeof_block + max_align + payload_bytes s need) (omega arith) in
          omega arith);
      unused = refl;
      enough = bytes.0;
      same_live = refl;
      same_size = refl;
    }

pub new_block_lem :
    (malloc : ℕ → Option ℕ) (s : Arena) (need : ℕ) {b : Block × Arena}
    → IsAddressed malloc
    → need + s.block_size + 64 < 2 ^ 64
    → new_block malloc s need ≡ some b
    → IsFresh s need b
unfolding new_block
new_block_lem malloc s need {b = b} fits small h =
    let size = wrap (sizeof_block + max_align + payload_bytes s need) in
    elim (Option-cases (malloc size)) [
      | inl e ↦ absurd (cc)
      | inr e ↦
          let made : new_block malloc s need
              ≡ some (block_at e.0 (payload_bytes s need), count_block s (payload_bytes s need)) =
            rw (e.1, new_block) refl in
          subst (IsFresh s need) (some-injective _ _ (sym made ∙ h))
            (made_lem s need e.0 small (fits size e.0 e.1))
    ]

pub raise_peak_lem :
    (s : Arena)
    → ((raise_peak s).live_bytes ≤ (raise_peak s).peak_usage)
      × ((raise_peak s).live_bytes ≡ s.live_bytes)
      × ((raise_peak s).chain ≡ s.chain)
unfolding raise_peak
raise_peak_lem s = ground arith

-- The bytes are the last ones in use of the current block, and within its capacity.
abbrev pub IsInside : Option Chain → ℕ → ℕ → Type 0
IsInside none p size = ⊥
IsInside (some c) p size =
    (c.current.payload ≤ p)
    × (p + size ≡ c.current.payload + c.current.used)
    × (c.current.used ≤ c.current.capacity)

-- What a request of `size` bytes with an alignment gets from an arena.
pub record IsServed (size align : ℕ) (r : Arena × ℕ) : Type 0 where
  pub valid : IsValid r.0
  pub aligned : r.1 % align ≡ 0
  pub inside : IsInside r.0.chain r.1 size

bump-IsLaid :
    (live : ℕ) (c : Chain) (off size : ℕ)
    → IsLaid live c
    → live < 2 ^ 64
    → c.current.used ≤ off
    → off + size ≤ c.current.capacity
    → IsLaid
        (live + minus (off + size) c.current.used)
        (record c { current = record c.current { used = off + size } })
bump-IsLaid live c off size l h low high =
    let cur = l.current in
    let e = minus_lem (off + size) c.current.used (omega arith) (omega arith) in
    record {
      before = l.before;
      current = record { within = high; addressed = cur.addressed; aligned = cur.aligned };
      next = l.next;
      clean = l.clean;
      counted = omega (arith, l.counted);
    }

mod_sum : (x y a : ℕ) → x % a ≡ 0 → y % a ≡ 0 → (x + y) % a ≡ 0
mod_sum x y a hx hy = add-mod x y a ∙ rw (hx, hy) (zero-mod a)

mod_multiple : (k a : ℕ) → 16 % a ≡ 0 → (k * 16) % a ≡ 0
mod_multiple zero a h = let e : 0 * 16 ≡ 0 = omega arith in rw (e) (zero-mod a)
mod_multiple (suc k) a h =
    let e : suc k * 16 ≡ 16 + k * 16 = omega arith in
    rw (e) (mod_sum 16 (k * 16) a h (mod_multiple k a h))

-- A power of two up to 16 divides the alignment of a payload.
aligned_sum : (p off a : ℕ) → p % 16 ≡ 0 → 16 % a ≡ 0 → off % a ≡ 0 → (p + off) % a ≡ 0
aligned_sum p off a hp ha ho =
    let e : p / 16 * 16 ≡ p = omega arith in
    mod_sum p off a (subst (λ q. q % a ≡ 0) e (mod_multiple (p / 16) a ha)) ho

-- The new cursor and count of live bytes, where neither wraps.
bump_small :
    (s : Arena) (c : Chain) (off size : ℕ)
    → off + size < 2 ^ 64
    → s.live_bytes + minus (off + size) c.current.used < 2 ^ 64
    → bump s c off size ≡ (
      raise_peak (record s {
        chain = some (record c { current = record c.current { used = off + size } });
        live_bytes = s.live_bytes + minus (off + size) c.current.used;
      }),
      c.current.payload + off,
    )
unfolding bump
bump_small s c off size cursor live =
    rw
      (
        bump,
        wrap_small (off + size) cursor,
        wrap_small (s.live_bytes + minus (off + size) c.current.used) live,
      )
      refl

pub bump_lem :
    (s : Arena) (c : Chain) (size align : ℕ)
    → IsLaid s.live_bytes c
    → s.live_bytes + size + align < 2 ^ 64
    → 0 < align
    → 16 % align ≡ 0
    → c.current.used + align < 2 ^ 64
    → align_up c.current.used align + size ≤ c.current.capacity
    → IsServed size align (bump s c (align_up c.current.used align) size)
bump_lem s c size align l h pos power small room =
    let off = align_up c.current.used align in
    let (low, high, even) = align_up_lem c.current.used align pos small in
    let s1 = record s {
      chain = some (record c { current = record c.current { used = off + size } });
      live_bytes = s.live_bytes + minus (off + size) c.current.used;
    } in
    let (peak, live, chain) = raise_peak_lem s1 in
    let laid : IsLaidChain s1.live_bytes s1.chain =
      bump-IsLaid s.live_bytes c off size l (omega arith) low room in
    let cursor : off + size < 2 ^ 64 = omega (arith, l.current.addressed) in
    let moved = minus_lem (off + size) c.current.used (omega arith) cursor in
    subst (IsServed size align) (sym (bump_small s c off size cursor (omega arith))) (record {
      valid = record { laid = rw (live, chain) laid; peaked = peak };
      aligned = aligned_sum c.current.payload off align l.current.aligned power even;
      inside =
          subst (λ k. IsInside k (c.current.payload + off) size) (sym chain)
            ((omega arith), (omega arith), room);
    })
