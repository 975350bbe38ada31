-- ===== src/RenderGraph/Arena/Run.antt =====
-- The operations between a mark and the rewind to it, as ScopedScratch makes them: the arena stays
-- valid and what lies before the mark is untouched.
use alpenite.Prelude.{
  ℕ, ◌+◌, ◌%◌, ◌^◌, ◌≤◌, ◌<◌, ◌≡◌, refl, sym, subst, ◌∙◌, arith, Option, none, some, ◌⊎◌, inl, inr,
  List, [], ◌∷◌, ◌++◌, append_assoc, Bool-cases, Option-cases, ◌==◌, leb, leb→le,
}
use alpenite.RenderGraph.Arena.Defs.{
  wrap, Block, Chain, Arena, alloc_raw, extend_in, extend_chain, extend_tail, grow, raise_peak,
}
use alpenite.RenderGraph.Arena.Layout.{wrap_small, IsLaid, IsLaidChain, IsValid}
use alpenite.RenderGraph.Arena.Bump.{IsAddressed, IsSmall, raise_peak_lem}
use alpenite.RenderGraph.Arena.Alloc.{Follows, alloc_in_lem}

-- The block of a mark as it is found later, with its cursor at the same place or further on.
abbrev pub IsGrown : Block → Block → Type 0
IsGrown a b =
    (b.address ≡ a.address)
    × (b.payload ≡ a.payload)
    × (b.capacity ≡ a.capacity)
    × (a.used ≤ b.used)

-- The chain `d` is reached from `c`: the blocks before the current one of `c` are untouched.
abbrev pub Reaches : Chain → Chain → Type 0
Reaches c d =
    ((d.before ≡ c.before) × IsGrown c.current d.current)
    ⊎ ((b : Block) × ((more : List Block) × ((d.before ≡ c.before ++ b ∷ more)
            × IsGrown c.current b)))

Reaches-Follows : (c d e : Chain) → Reaches c d → Follows d (some e) → Reaches c e
Reaches-Follows c d e (inl (same, g)) (inl (kept, f0, f1, f2, f3)) = inl (kept ∙ same, ground arith)
Reaches-Follows c d e (inl (same, g)) (inr next) = inr (d.current, ([], (rw (same) at next, g)))
Reaches-Follows c d e (inr (b, (more, (same, g)))) (inl (kept, f0, f1, f2, f3)) =
    inr (b, (more, (kept ∙ same, g)))
Reaches-Follows c d e (inr (b, (more, (same, g)))) (inr next) =
    inr (b, (more ++ d.current ∷ [], (rw (same, append_assoc) at next, g)))

-- One operation on the arena: an allocation that succeeds, or the growth of a tail.
pub data Run (s : Arena) : Arena → Type 0 where
  stay : Run s s
  alloc :
      (malloc : ℕ → Option ℕ) (t : Arena) (size align : ℕ) (r : Arena × ℕ)
      → Run s t
      → IsAddressed malloc
      → IsSmall t size align
      → 0 < align
      → 16 % align ≡ 0
      → alloc_raw malloc t size align ≡ some r
      → Run s r.0
  extend :
      (t : Arena) (p old_size add_size : ℕ)
      → Run s t
      → t.live_bytes + add_size < 2 ^ 64
      → Run s (extend_tail t p old_size add_size).0

extend_cases :
    (t : Arena) (d : Chain) (p old_size add_size : ℕ)
    → t.live_bytes + add_size < 2 ^ 64
    → IsLaid t.live_bytes d
    → ((extend_in t d p old_size add_size).0 ≡ t)
      ⊎ (((extend_in t d p old_size add_size).0 ≡ grow t d add_size)
          × (d.current.used + add_size ≤ d.current.capacity))
unfolding extend_in
extend_cases t d p old_size add_size small l =
    let fit = wrap_small (d.current.used + add_size) (omega (arith, l.counted)) in
    elim (Bool-cases (p == 0)) [
      | inl null ↦ inl (rw (extend_in, null) refl)
      | inr there ↦ elim (Bool-cases (p + old_size == d.current.payload + d.current.used)) [
        | inr inner ↦ inl (rw (extend_in, there, inner) refl)
        | inl tail ↦ elim (Bool-cases (leb (wrap (d.current.used + add_size)) d.current.capacity)) [
          | inr full ↦ inl (rw (extend_in, there, tail, full) refl)
          | inl room ↦ inr (rw (extend_in, there, tail, room) refl, leb→le _ _ (rw (fit) at room))
        ]
      ]
    ]

grow_lem :
    (t : Arena) (d : Chain) (add_size : ℕ)
    → t.live_bytes + add_size < 2 ^ 64
    → IsLaid t.live_bytes d
    → d.current.used + add_size ≤ d.current.capacity
    → IsValid (grow t d add_size) × Follows d (grow t d add_size).chain
unfolding grow
grow_lem t d add_size small l room =
    let grown = record d { current = record d.current { used = d.current.used + add_size } } in
    let s1 : Arena = record t { chain = some grown; live_bytes = t.live_bytes + add_size } in
    let (peak, live, chain) = raise_peak_lem s1 in
    let laid : IsLaid (t.live_bytes + add_size) grown = record {
      before = l.before;
      current = record {
        within = room;
        addressed = l.current.addressed;
        aligned = l.current.aligned;
      };
      next = l.next;
      clean = l.clean;
      counted = omega (arith, l.counted);
    } in
    let first : IsLaidChain s1.live_bytes s1.chain = laid in
    let same : grow t d add_size ≡ raise_peak s1 =
      rw
        (
          grow,
          wrap_small (d.current.used + add_size) (omega (arith, l.counted)),
          wrap_small (t.live_bytes + add_size) small,
        )
        refl in
    subst (λ q. IsValid q × Follows d q.chain) (sym same)
      (
        record { laid = rw (live, chain) first; peaked = peak },
        subst (Follows d) (sym chain) (inl (refl, refl, refl, refl, (omega arith))),
      )

abbrev pub ReachesArena : Chain → Option Chain → Type 0
ReachesArena c none = ⊥
ReachesArena c (some d) = Reaches c d

follow : (c d : Chain) (k : Option Chain) → Reaches c d → Follows d k → ReachesArena c k
follow c d none h f = absurd f
follow c d (some e) h f = Reaches-Follows c d e h f

extend_lem :
    (c d : Chain) (t : Arena) (p old_size add_size : ℕ)
    → t.chain ≡ some d
    → t.live_bytes + add_size < 2 ^ 64
    → IsValid t
    → Reaches c d
    → IsValid (extend_in t d p old_size add_size).0
      × ReachesArena c (extend_in t d p old_size add_size).0.chain
extend_lem c d t p old_size add_size e small v h =
    let l : IsLaid t.live_bytes d = subst (IsLaidChain t.live_bytes) e v.laid in
    let Kept : Arena → Type 0 = λ q. IsValid q × ReachesArena c q.chain in
    elim (extend_cases t d p old_size add_size small l) [
      | inl same ↦ subst Kept (sym same) (v, subst (ReachesArena c) (sym e) h)
      | inr (grown, room) ↦
          let (valid, next) = grow_lem t d add_size small l room in
          subst Kept (sym grown) (valid, follow c d _ h next)
    ]

extend_step :
    (c : Chain) (t : Arena) (p old_size add_size : ℕ)
    → t.live_bytes + add_size < 2 ^ 64
    → IsValid t
    → ReachesArena c t.chain
    → IsValid (extend_tail t p old_size add_size).0
      × ReachesArena c (extend_tail t p old_size add_size).0.chain
unfolding extend_tail
extend_step c t p old_size add_size small v h = elim (Option-cases t.chain) [
  | inl e ↦ absurd (subst (ReachesArena c) e h)
  | inr (d, e) ↦
      subst
        (λ k.
          IsValid (extend_chain t k p old_size add_size).0
          × ReachesArena c (extend_chain t k p old_size add_size).0.chain)
        (sym e) (extend_lem c d t p old_size add_size e small v (subst (ReachesArena c) e h))
]

alloc_step :
    (c : Chain) (malloc : ℕ → Option ℕ) (t : Arena) (size align : ℕ) (r : Arena × ℕ)
    → IsAddressed malloc
    → IsSmall t size align
    → 0 < align
    → 16 % align ≡ 0
    → alloc_raw malloc t size align ≡ some r
    → IsValid t
    → ReachesArena c t.chain
    → IsValid r.0 × ReachesArena c r.0.chain
unfolding alloc_raw
alloc_step c malloc t size align r fits small pos power h v reach = elim (Option-cases t.chain) [
  | inl e ↦ absurd (subst (ReachesArena c) e reach)
  | inr (d, e) ↦
      let (served, next) =
        alloc_in_lem malloc t d size align fits small pos power
          (subst (IsLaidChain t.live_bytes) e v.laid) (rw (e, alloc_raw) at h) in
      (served.valid, follow c d r.0.chain (subst (ReachesArena c) e reach) next)
]

-- A run keeps the arena valid and the blocks before the mark untouched.
pub run_lem :
    (s : Arena) (c : Chain) {t : Arena}
    → s.chain ≡ some c
    → IsValid s
    → Run s t
    → IsValid t × ReachesArena c t.chain
run_lem s c e v stay =
    (v, subst (ReachesArena c) (sym e) (inl (refl, (refl, refl, refl, omega arith))))
run_lem s c e v (alloc malloc t size align r run fits small pos power h) =
    let (valid, reach) = run_lem s c e v run in
    alloc_step c malloc t size align r fits small pos power h valid reach
run_lem s c e v (extend t p old_size add_size run small) =
    let (valid, reach) = run_lem s c e v run in
    extend_step c t p old_size add_size small valid reach
