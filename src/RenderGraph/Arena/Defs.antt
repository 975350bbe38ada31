-- ===== src/RenderGraph/Arena/Defs.antt =====
-- The chain of blocks of an arena, and its operations. The calls of malloc that an operation may make
-- are an argument: what malloc answers for a size. `none` as a result is oom, which ends the program.
use alpenite.Prelude.{
  ℕ, ◌+◌, ◌-◌, ◌*◌, ◌/◌, ◌%◌, ◌^◌, Bool, Option, none, some, List, [], ◌∷◌, ◌++◌, ltb, leb, ◌==◌,
  map, if◌then◌else◌,
}

-- A size_t.
unfoldable pub wrap : ℕ → ℕ
wrap n = n % 2 ^ 64

unfoldable pub minus : ℕ → ℕ → ℕ
minus a b = (a + 2 ^ 64 - b) % 2 ^ 64

-- The mask clears the low bits, which rounds down to a multiple of a power of two.
unfoldable pub align_up : ℕ → ℕ → ℕ
unfolding wrap
align_up value alignment = wrap (value + alignment - 1) / alignment * alignment

pub record Block : Type 0 where
  pub address : ℕ
  pub payload : ℕ
  pub capacity : ℕ
  pub used : ℕ

-- The blocks before `current` in their order, `current`, and the blocks that follow it.
pub record Chain : Type 0 where
  pub before : List Block
  pub current : Block
  pub next : List Block

-- No chain: `head` and `current` are null.
pub record Arena : Type 0 where
  pub chain : Option Chain
  pub block_size : ℕ
  pub total_capacity : ℕ
  pub peak_usage : ℕ
  pub block_count : ℕ
  pub live_bytes : ℕ

-- `sizeof(ArenaBlock)` and `alignof(std::max_align_t)` on a 64-bit machine.
abbrev pub sizeof_block : ℕ
sizeof_block = 32

abbrev pub max_align : ℕ
max_align = 16

unfoldable pub payload_bytes : Arena → ℕ → ℕ
payload_bytes s min_payload = if ltb min_payload s.block_size then s.block_size else min_payload

unfoldable pub block_at : ℕ → ℕ → Block
unfolding align_up
block_at address bytes = record {
  address = address;
  payload = align_up (address + sizeof_block) max_align;
  capacity = bytes;
  used = 0;
}

unfoldable pub count_block : Arena → ℕ → Arena
unfolding wrap
count_block s bytes = record s {
  total_capacity = wrap (s.total_capacity + bytes);
  block_count = s.block_count + 1;
}

unfoldable pub new_block : (ℕ → Option ℕ) → Arena → ℕ → Option (Block × Arena)
unfolding wrap payload_bytes block_at count_block
new_block malloc s min_payload =
    let bytes = payload_bytes s min_payload in
    elim (malloc (wrap (sizeof_block + max_align + bytes))) [
      | none ↦ none
      | some address ↦ some (block_at address bytes, count_block s bytes)
    ]

-- `reserve` ignores a failure of malloc.
unfoldable pub reserve : (ℕ → Option ℕ) → Arena → Arena
unfolding new_block
reserve malloc s = elim s.chain [
  | some c ↦ s
  | none ↦ elim (new_block malloc s s.block_size) [
    | none ↦ s
    | some b ↦ record b.1 { chain = some (record { before = []; current = b.0; next = [] }) }
  ]
]

unfoldable pub raise_peak : Arena → Arena
raise_peak s = if ltb s.peak_usage s.live_bytes then record s { peak_usage = s.live_bytes } else s

-- The end of alloc_raw: hand out `size` bytes of the current block from `off` on.
unfoldable pub bump : Arena → Chain → ℕ → ℕ → Arena × ℕ
unfolding wrap minus raise_peak
bump s c off size = (
  raise_peak (record s {
    chain = some (record c { current = record c.current { used = wrap (off + size) } });
    live_bytes = wrap (s.live_bytes + minus (wrap (off + size)) c.current.used);
  }),
  c.current.payload + off,
)

-- A new block after the current one, which it replaces as the current one.
unfoldable pub insert_block : (ℕ → Option ℕ) → Arena → Chain → ℕ → Option (Arena × Chain)
unfolding new_block
insert_block malloc s c min_payload = elim (new_block malloc s min_payload) [
  | none ↦ none
  | some b ↦
      some (b.1, record { before = c.before ++ c.current ∷ []; current = b.0; next = c.next })
]

-- The next block is taken over when it is large enough.
unfoldable pub advance : (ℕ → Option ℕ) → Arena → Chain → ℕ → Option (Arena × Chain)
unfolding insert_block minus
advance malloc s c need = elim c.next [
  | [] ↦ insert_block malloc s c need
  | b ∷ bs ↦
      if leb need b.capacity
      then some (
        record s { live_bytes = minus s.live_bytes b.used },
        record { before = c.before ++ c.current ∷ []; current = record b { used = 0 }; next = bs },
      )
      else insert_block malloc s c need
]

unfoldable pub alloc_in : (ℕ → Option ℕ) → Arena → Chain → ℕ → ℕ → Option (Arena × ℕ)
unfolding align_up wrap advance bump
alloc_in malloc s c size align =
    if leb (wrap (align_up c.current.used align + size)) c.current.capacity
    then some (bump s c (align_up c.current.used align) size)
    else elim (advance malloc s c (wrap (size + align))) [
      | none ↦ none
      | some moved ↦ some (bump moved.0 moved.1 (align_up moved.1.current.used align) size)
    ]

unfoldable pub alloc_raw : (ℕ → Option ℕ) → Arena → ℕ → ℕ → Option (Arena × ℕ)
unfolding new_block wrap alloc_in
alloc_raw malloc s size align = elim s.chain [
  | some c ↦ alloc_in malloc s c size align
  | none ↦ elim (new_block malloc s (wrap (size + align))) [
    | none ↦ none
    | some b ↦ alloc_in malloc b.1 (record { before = []; current = b.0; next = [] }) size align
  ]
]

unfoldable pub grow : Arena → Chain → ℕ → Arena
unfolding wrap raise_peak
grow s c add_size = raise_peak (record s {
  chain =
      some (record c { current = record c.current { used = wrap (c.current.used + add_size) } });
  live_bytes = wrap (s.live_bytes + add_size);
})

unfoldable pub extend_in : Arena → Chain → ℕ → ℕ → ℕ → Arena × Bool
unfolding grow wrap
extend_in s c p old_size add_size =
    if p == 0
    then (s, Bool.false)
    else if p + old_size == c.current.payload + c.current.used
    then (if leb (wrap (c.current.used + add_size)) c.current.capacity
        then (grow s c add_size, Bool.true)
        else (s, Bool.false))
    else (s, Bool.false)

abbrev pub extend_chain : Arena → Option Chain → ℕ → ℕ → ℕ → Arena × Bool
extend_chain s none p old_size add_size = (s, Bool.false)
extend_chain s (some c) p old_size add_size = extend_in s c p old_size add_size

-- The arena after the call, and whether `p` grew in place. A null `p` is the address 0.
unfoldable pub extend_tail : Arena → ℕ → ℕ → ℕ → Arena × Bool
extend_tail s p old_size add_size = extend_chain s s.chain p old_size add_size

unfoldable pub empty : Block → Block
empty b = record b { used = 0 }

unfoldable pub chain_blocks : Chain → List Block
chain_blocks c = c.before ++ c.current ∷ c.next

-- `current = head`.
unfoldable pub at_head : List Block → Option Chain
at_head [] = none
at_head (b ∷ bs) = some (record { before = []; current = b; next = bs })

unfoldable pub blocks : Arena → List Block
unfolding chain_blocks
blocks s = elim s.chain [ none ↦ [] | some c ↦ chain_blocks c ]

unfoldable pub reset : Arena → Arena
unfolding at_head empty blocks
reset s = record s { chain = at_head (map empty (blocks s)); live_bytes = 0; peak_usage = 0 }

unfoldable pub free_all : Arena → Arena
free_all s = record s {
  chain = none;
  total_capacity = 0;
  peak_usage = 0;
  block_count = 0;
  live_bytes = 0;
}

-- `Mark`: the address of the current block, none for null, and its cursor.
pub record Mark : Type 0 where
  pub block : Option ℕ
  pub used : ℕ

unfoldable pub mark : Arena → Mark
mark s = elim s.chain [
  | none ↦ record { block = none; used = 0 }
  | some c ↦ record { block = some c.current.address; used = c.current.used }
]

-- `liveBytes -= b->used`, a block after the other.
unfoldable pub release : ℕ → List Block → ℕ
unfolding minus
release live [] = live
release live (b ∷ bs) = release (minus live b.used) bs

-- The chain cut at the block of an address.
unfoldable pub cut : ℕ → List Block → List Block → Option Chain
cut address seen [] = none
cut address seen (b ∷ bs) =
    let rest = cut address (seen ++ b ∷ []) bs in
    if b.address == address then some (record { before = seen; current = b; next = bs }) else rest

unfoldable pub rewind_to : Arena → Chain → ℕ → Arena
unfolding release minus empty
rewind_to s c used = record s {
  chain = some (record {
    before = c.before;
    current = record c.current { used = used };
    next = map empty c.next;
  });
  live_bytes = minus (release s.live_bytes c.next) (minus c.current.used used);
}

-- A mark of a block that is not in the chain is not defined in the source; here nothing happens.
unfoldable pub rewind_at : Arena → ℕ → ℕ → Arena
unfolding cut rewind_to blocks
rewind_at s address used = elim (cut address [] (blocks s)) [
  | none ↦ s
  | some c ↦ rewind_to s c used
]

unfoldable pub rewind : Arena → Mark → Arena
unfolding release rewind_at empty at_head blocks
rewind s m = elim m.block [
  | none ↦ record s {
    chain = at_head (map empty (blocks s));
    live_bytes = release s.live_bytes (blocks s);
  }
  | some address ↦ rewind_at s address m.used
]
