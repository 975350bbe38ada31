-- ===== src/RenderGraph/PersistentPool/Eviction.antt =====
-- Which entries the end of a frame frees.
use alpenite.Prelude.{
  ℕ, zero, suc, ◌+◌, ◌-◌, ◌^◌, ◌≤◌, ◌<◌, ◌≡◌, ◌⊎◌, inl, inr, ◌↔◌, false, List, [], ◌∷◌, sym, subst,
  leb, if◌then◌else◌, arith, Bool-cases,
}
use alpenite.RenderGraph.PersistentPool.Defs.{
  Entry, PersistentPool, difference, increment, evict, end_frame, retain,
}

-- The end of `n` frames, with no touch between them.
unfoldable pub idle : ℕ → PersistentPool → PersistentPool
unfolding end_frame
idle zero pool = pool
idle (suc n) pool = idle n (end_frame pool)

abbrev pub In : Entry → List Entry → Type 0
In e [] = ⊥
In e (x ∷ xs) = (x ≡ e) ⊎ In e xs

-- The frames since the entry was touched, when the clock has not wrapped since.
difference_lem :
    (clock last : ℕ) → last ≤ clock → clock < 2 ^ 64 → difference clock last ≡ clock - last
unfolding difference
difference_lem clock last h k = omega arith

evict-keeps :
    (clock : ℕ) (entries : List Entry) (e : Entry)
    → difference clock e.last_touched < retain
    → In e entries
    → In e (evict clock entries)
unfolding evict
evict-keeps clock [] e young h = absurd h
evict-keeps clock (x ∷ entries) e young (inl same) =
    let stays : leb retain (difference clock x.last_touched) ≡ false =
      subst (λ (y : Entry). leb retain (difference clock y.last_touched) ≡ false) (sym same)
        (ground arith) in
    rw stays (inl same)
evict-keeps clock (x ∷ entries) e young (inr deep) =
    let rest = evict-keeps clock entries e young deep in
    elim (Bool-cases (leb retain (difference clock x.last_touched))) [
      | inl old ↦ rw old rest
      | inr new ↦ rw new (inr rest)
    ]

evict-only :
    (clock : ℕ) (entries : List Entry) (e : Entry)
    → In e (evict clock entries)
    → In e entries × (difference clock e.last_touched < retain)
unfolding evict
evict-only clock [] e h = absurd h
evict-only clock (x ∷ entries) e h =
    elim (Bool-cases (leb retain (difference clock x.last_touched))) [
      | inl old ↦
          let (deep, young) = evict-only clock entries e (
            subst (λ b. In e (if b then evict clock entries else x ∷ evict clock entries)) old h) in
          (inr deep, young)
      | inr new ↦
          elim (subst (λ b. In e (if b then evict clock entries else x ∷ evict clock entries)) new
            h) [
              | inl same ↦ (
                inl same,
                subst (λ (y : Entry). difference clock y.last_touched < retain) same (ground arith),
              )
              | inr deep ↦
                  let (there, young) = evict-only clock entries e deep in (inr there, young)
            ]
    ]

idle-In :
    (n age : ℕ) (pool : PersistentPool) (e : Entry)
    → pool.evict_clock ≡ e.last_touched + age
    → e.last_touched + age + n < 2 ^ 64
    → age + n ≤ 4
    → In e pool.entries
    → In e (idle n pool).entries
unfolding idle end_frame increment
idle-In zero age pool e clock fits le h = h
idle-In (suc n) age pool e clock fits le h =
    let young : difference pool.evict_clock e.last_touched < retain = omega (
      arith,
      clock,
      difference_lem pool.evict_clock e.last_touched (omega (arith, clock)) (omega (arith, clock)),
    ) in
    idle-In n (suc age) (end_frame pool) e (omega (arith, clock)) (omega arith) (omega arith)
      (evict-keeps pool.evict_clock pool.entries e young h)

idle-only :
    (n : ℕ) (pool : PersistentPool) (e : Entry) → In e (idle n pool).entries → In e pool.entries
unfolding idle end_frame
idle-only zero pool e h = h
idle-only (suc n) pool e h =
    (evict-only pool.evict_clock pool.entries e (idle-only n (end_frame pool) e h)).0

idle-out :
    (n age : ℕ) (pool : PersistentPool) (e : Entry)
    → pool.evict_clock ≡ e.last_touched + age
    → e.last_touched + age + n < 2 ^ 64
    → age ≤ 4
    → In e (idle n pool).entries
    → age + n ≤ 4
unfolding idle end_frame increment
idle-out zero age pool e clock fits le h = omega arith
idle-out (suc n) age pool e clock fits le h =
    let young = (evict-only pool.evict_clock pool.entries e (idle-only n (end_frame pool) e h)).1 in
    let d =
      difference_lem pool.evict_clock e.last_touched (omega (arith, clock))
        (omega (arith, clock)) in
    omega (
      arith,
      idle-out n (suc age) (end_frame pool) e (omega (arith, clock)) (omega arith)
          (omega (arith, clock, d, young)) h,
    )

-- An entry that was touched in the present frame is still there after the end of `n` frames, the present one first and with no touch between them, if and only if `n` is at most 4, as long as the uint64_t clock does not wrap: the end of the fourth frame that does not touch it frees it.
pub idle_iff :
    (n : ℕ) (pool : PersistentPool) (e : Entry)
    → In e pool.entries
    → pool.evict_clock ≡ e.last_touched
    → e.last_touched + n < 2 ^ 64
    → In e (idle n pool).entries ↔ (n ≤ 4)
idle_iff n pool e h clock fits = (
  λ k. omega (arith, idle-out n 0 pool e (omega (arith, clock)) (omega arith) (omega arith) k),
  λ le. idle-In n 0 pool e (omega (arith, clock)) (omega arith) (omega arith) h,
)
