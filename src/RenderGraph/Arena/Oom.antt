-- ===== src/RenderGraph/Arena/Oom.antt =====
-- When an allocation ends the program: the block that it needs is refused by malloc.
use Prim.Native.Nat.{max}
use alpenite.Prelude.{
  ℕ, ◌+◌, ◌^◌, ◌≤◌, ◌<◌, ◌≡◌, ◌≢◌, ◌↔◌, refl, sym, subst, ◌∙◌, arith, Option, none, some, inl, inr,
  List, [], ◌∷◌, Bool-cases, List-cases, some≢none, Option-cases, leb, leb→le,
}
use alpenite.RenderGraph.Arena.Defs.{
  wrap, align_up, Block, Chain, Arena, payload_bytes, new_block, insert_block, advance, alloc_in,
  alloc_raw, sizeof_block, max_align,
}
use alpenite.RenderGraph.Arena.Layout.{wrap_small, align_up_lem, IsLaid, IsLaidChain, IsValid}
use alpenite.RenderGraph.Arena.Bump.{IsAddressed, IsSmall, new_block_lem}

-- The bytes that an arena asks malloc for, for a block that holds `need` bytes: the header, the room
-- to align the payload, and a payload of at least the block size.
abbrev pub request : Arena → ℕ → ℕ
request s need = 32 + 16 + max need s.block_size

new_block_iff :
    (malloc : ℕ → Option ℕ) (s : Arena) (need : ℕ)
    → need + s.block_size + 64 < 2 ^ 64
    → (new_block malloc s need ≡ none) ↔ (malloc (request s need) ≡ none)
unfolding new_block payload_bytes
new_block_iff malloc s need small =
    let bytes : wrap (sizeof_block + max_align + payload_bytes s need) ≡ request s need =
      wrap_small _ (unfold payload_bytes in ground arith) ∙ ground arith in
    elim (Option-cases (malloc (wrap (sizeof_block + max_align + payload_bytes s need)))) [
      | inl e ↦ (λ _. rw (bytes) at e, λ _. rw (new_block, e) refl)
      | inr (a, e) ↦ (
        λ h. absurd (some≢none (rw (new_block, e) at h)),
        λ h. absurd (some≢none (sym (rw (bytes) at e) ∙ h)),
      )
    ]

insert_iff :
    (malloc : ℕ → Option ℕ) (s : Arena) (c : Chain) (need : ℕ)
    → need + s.block_size + 64 < 2 ^ 64
    → (insert_block malloc s c need ≡ none) ↔ (malloc (request s need) ≡ none)
unfolding insert_block
insert_iff malloc s c need small =
    let new = new_block_iff malloc s need small in
    elim (Option-cases (new_block malloc s need)) [
      | inl e ↦ (λ _. new.0 e, λ _. rw (insert_block, e) refl)
      | inr (b, e) ↦ (
        λ h. absurd (some≢none (rw (insert_block, e) at h)),
        λ h. absurd (some≢none (sym e ∙ new.1 h)),
      )
    ]

-- The block behind the current one is not there or does not hold `need` bytes.
abbrev pub IsNextSmall : List Block → ℕ → Type 0
IsNextSmall [] need = Unit
IsNextSmall (b ∷ bs) need = b.capacity < need

advance_iff :
    (malloc : ℕ → Option ℕ) (s : Arena) (c : Chain) (need : ℕ)
    → need + s.block_size + 64 < 2 ^ 64
    → (advance malloc s c need ≡ none)
      ↔ (IsNextSmall c.next need × (malloc (request s need) ≡ none))
unfolding advance
advance_iff malloc s c need small =
    let insert = insert_iff malloc s c need small in
    elim (List-cases c.next) [
      | inl e ↦ rw (advance, e) (λ h. (tt, insert.0 h), λ h. insert.1 h.1)
      | inr (b, (bs, e)) ↦ elim (Bool-cases (leb need b.capacity)) [
        | inr low ↦ rw (advance, e, low) (λ h. (ground arith, insert.0 h), λ h. insert.1 h.1)
        | inl large ↦ rw (advance, e, large) (λ h. absurd (some≢none h), λ h. absurd (ground arith))
      ]
    ]

-- Neither the current block has room for the request, nor the block behind it.
abbrev pub NeedsBlock : Option Chain → ℕ → ℕ → Type 0
NeedsBlock none size align = Unit
NeedsBlock (some c) size align =
    (c.current.capacity < align_up c.current.used align + size) × IsNextSmall c.next (size + align)

alloc_in_iff :
    (malloc : ℕ → Option ℕ) (s : Arena) (c : Chain) (size align : ℕ)
    → IsSmall s size align
    → 0 < align
    → c.current.used ≤ s.live_bytes
    → (alloc_in malloc s c size align ≡ none)
      ↔ (NeedsBlock (some c) size align × (malloc (request s (size + align)) ≡ none))
unfolding alloc_in
alloc_in_iff malloc s c size align small pos cursor =
    let off = align_up c.current.used align in
    let low = align_up_lem c.current.used align pos (omega arith) in
    let fit = wrap_small (off + size) (omega arith) in
    let need = wrap_small (size + align) (omega arith) in
    let moved = advance_iff malloc s c (size + align) (omega arith) in
    elim (Bool-cases (leb (wrap (off + size)) c.current.capacity)) [
      | inl here ↦ (
        λ h. absurd (some≢none (rw (alloc_in, here) at h)),
        λ h. absurd (let room = leb→le _ _ (rw (fit) at here) in omega (arith, h.0.0)),
      )
      | inr full ↦
          let tight : c.current.capacity < off + size = ground arith in
          elim (Option-cases (advance malloc s c (wrap (size + align)))) [
            | inl e ↦
                let (next, refused) = moved.0 (rw (need) at e) in
                (λ _. ((tight, next), refused), λ _. rw (alloc_in, full, e) refl)
            | inr (t, e) ↦ (
              λ h. absurd (some≢none (rw (alloc_in, full, e) at h)),
              λ h. absurd (some≢none (sym (rw (need) at e) ∙ moved.1 (h.0.1, h.1))),
            )
          ]
    ]

-- A block that was just made for a request has room for it.
fresh_room :
    (malloc : ℕ → Option ℕ) (s : Arena) (b : Block) (size align : ℕ)
    → IsSmall s size align
    → 0 < align
    → b.used ≡ 0
    → size + align ≤ b.capacity
    → alloc_in malloc s (record { before = []; current = b; next = [] }) size align ≢ none
fresh_room malloc s b size align small pos unused room h =
    let c : Chain = record { before = []; current = b; next = [] } in
    let low = align_up_lem b.used align pos (omega (arith, unused)) in
    let needs = ((alloc_in_iff malloc s c size align small pos (omega (arith, unused))).0 h).0.0 in
    omega (arith, unused)

-- Let the arena be valid, the alignment positive, and the sums of a request and the addresses of malloc fit 64 bits. An allocation ends the program if and only if neither the current block nor the one behind it has room (or there is no block yet), and malloc refuses the block that is then asked for: a header, 16 bytes to align the payload, and the request with its alignment, or the block size if that is more.
pub alloc_raw-oom :
    (malloc : ℕ → Option ℕ) (s : Arena) (size align : ℕ)
    → IsAddressed malloc
    → IsSmall s size align
    → 0 < align
    → IsValid s
    → (alloc_raw malloc s size align ≡ none)
      ↔ (NeedsBlock s.chain size align × (malloc (request s (size + align)) ≡ none))
unfolding alloc_raw
alloc_raw-oom malloc s size align fits small pos v = elim (Option-cases s.chain) [
  | inr (c, e) ↦
      let l : IsLaid s.live_bytes c = subst (IsLaidChain s.live_bytes) e v.laid in
      rw (alloc_raw, e) (alloc_in_iff malloc s c size align small pos (omega (arith, l.counted)))
  | inl e ↦
      let need = wrap_small (size + align) (omega arith) in
      let new = new_block_iff malloc s (size + align) (omega arith) in
      elim (Option-cases (new_block malloc s (wrap (size + align)))) [
        | inl f ↦ rw (alloc_raw, e, f) (λ _. (tt, new.0 (rw (need) at f)), λ _. refl)
        | inr (b, f) ↦
            let g : new_block malloc s (size + align) ≡ some b = rw (need) at f in
            let fresh = new_block_lem malloc s (size + align) fits (omega arith) g in
            let room =
              fresh_room malloc b.1 b.0 size align (omega (arith, fresh.same_live, fresh.same_size))
                pos fresh.unused fresh.enough in
            rw (alloc_raw, e, f) (λ h. absurd (room h), λ h. absurd (some≢none (sym g ∙ new.1 h.1)))
      ]
]
