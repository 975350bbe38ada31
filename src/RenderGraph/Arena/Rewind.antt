-- ===== src/RenderGraph/Arena/Rewind.antt =====
-- The rewind to a mark brings back the arena as it was when the mark was taken.
use alpenite.Prelude.{
  ℕ, ◌+◌, ◌^◌, ◌<◌, ◌≡◌, ◌≢◌, refl, sym, subst, ◌∙◌, ap, arith, false, some, inl, inr, List, [],
  ◌∷◌, ◌++◌, append_assoc, append-nil, All, Option-cases, ◌==◌, ==_iff, map,
}
use alpenite.RenderGraph.Arena.Defs.{
  minus, Block, Chain, Arena, blocks, chain_blocks, release, cut, rewind_to, rewind_at, rewind,
  mark, empty,
}
use alpenite.RenderGraph.Arena.Layout.{
  minus_lem, IsEmpty, total, total-append, IsLaid, IsLaidChain, IsValid,
}
use alpenite.RenderGraph.Arena.Run.{Run, Reaches, ReachesArena, IsGrown, run_lem}

total_clean : (bs : List Block) → All IsEmpty bs → total bs ≡ 0
total_clean [] h = refl
total_clean (b ∷ bs) h = omega (arith, h.0, total_clean bs h.1)

-- The blocks of a chain, cut where the mark was taken.
abbrev IsCut : Chain → ℕ → List Block → Type 0
IsCut c live bs =
    (b : Block) × ((rest : List Block) × ((bs ≡ c.before ++ b ∷ rest)
        × (IsGrown c.current b × (live ≡ total c.before + (b.used + total rest)))))

split_total :
    (c d : Chain) (live : ℕ) (b : Block) (more : List Block)
    → IsLaid live d
    → d.before ≡ c.before ++ b ∷ more
    → live ≡ total c.before + (b.used + total (more ++ d.current ∷ d.next))
split_total c d live b more l same =
    let sum : total d.before ≡ total (c.before ++ b ∷ more) = ap total same in
    omega (
      arith,
      sum,
      l.counted,
      total-append c.before (b ∷ more),
      total_clean d.next l.clean,
      total-append more (d.current ∷ d.next),
    )

reach-IsCut : (c d : Chain) (live : ℕ) → IsLaid live d → Reaches c d → IsCut c live (chain_blocks d)
unfolding chain_blocks
reach-IsCut c d live l (inl (same, g)) =
    let sum : total d.before ≡ total c.before = ap total same in
    (
      d.current,
      (
        d.next,
        (
          ap (λ bs. bs ++ d.current ∷ d.next) same,
          (g, omega (arith, sum, l.counted, total_clean d.next l.clean)),
        ),
      ),
    )
reach-IsCut c d live l (inr (b, (more, (same, g)))) = (
  b,
  (
    more ++ d.current ∷ d.next,
    (
      ap (λ bs. bs ++ d.current ∷ d.next) same
          ∙ append_assoc c.before (b ∷ more) (d.current ∷ d.next),
      (g, split_total c d live b more l same),
    ),
  ),
)

cut_lem :
    (a : ℕ) (seen bs : List Block) (b : Block) (rest : List Block)
    → All (λ x. x.address ≢ a) bs
    → b.address ≡ a
    → cut a seen (bs ++ b ∷ rest) ≡ some (record { before = seen ++ bs; current = b; next = rest })
unfolding cut
cut_lem a seen [] b rest h e = rw (append-nil seen, (==_iff b.address a).1 e) refl
cut_lem a seen (x ∷ bs) b rest h e =
    let other : (x.address == a) ≡ false = ground (arith, h.0) in
    let found = cut_lem a (seen ++ x ∷ []) bs b rest h.1 e in
    rw (other) (rw (append_assoc) at found)

release_lem :
    (live x : ℕ) (bs : List Block) → live < 2 ^ 64 → live ≡ x + total bs → release live bs ≡ x
unfolding release
release_lem live x [] h e = omega (arith, e)
release_lem live x (b ∷ bs) h e =
    let m = minus_lem live b.used (omega arith) h in
    release_lem (minus live b.used) x bs (omega (arith, m)) (omega (arith, m))

-- The arena is back at the chain `c` and the count of the mark; the blocks behind are empty.
pub record IsRestored (live : ℕ) (c : Chain) (t : Arena) : Type 0 where
  pub next : List Block
  pub restored : t.chain ≡ some (record c { next = next })
  pub clean : All IsEmpty next
  pub same_live : t.live_bytes ≡ live

map-empty_IsEmpty : (bs : List Block) → All IsEmpty (map empty bs)
unfolding empty
map-empty_IsEmpty [] = tt
map-empty_IsEmpty (b ∷ bs) = (refl, map-empty_IsEmpty bs)

regrown : (a b : Block) → IsGrown a b → record b { used = a.used } ≡ a
regrown a b (e, f, g, h) = cc

rewind_to_lem :
    (t : Arena) (c : Chain) (b : Block) (rest : List Block)
    → IsGrown c.current b
    → t.live_bytes < 2 ^ 64
    → t.live_bytes ≡ total c.before + (b.used + total rest)
    → IsRestored
        (total c.before + c.current.used)
        c
        (rewind_to t (record { before = c.before; current = b; next = rest }) c.current.used)
unfolding rewind_to
rewind_to_lem t c b rest g small sum =
    let gone = release_lem t.live_bytes (total c.before + b.used) rest small (omega arith) in
    let inner = minus_lem b.used c.current.used g.3 (omega arith) in
    let outer =
      minus_lem (release t.live_bytes rest) (minus b.used c.current.used) (omega arith)
        (omega arith) in
    record {
      next = map empty rest;
      restored =
          ap (λ q. some (record { before = c.before; current = q; next = map empty rest }))
            (regrown c.current b g);
      clean = map-empty_IsEmpty rest;
      same_live = omega (arith, g.3);
    }

rewind_at_lem :
    (t : Arena) (c : Chain)
    → All (λ x. x.address ≢ c.current.address) c.before
    → t.live_bytes < 2 ^ 64
    → IsCut c t.live_bytes (blocks t)
    → IsRestored (total c.before + c.current.used) c (rewind_at t c.current.address c.current.used)
unfolding rewind_at
rewind_at_lem t c apart small (b, (rest, (same, (g, sum)))) =
    let found : cut c.current.address [] (blocks t)
        ≡ some (record { before = c.before; current = b; next = rest }) =
      ap (cut c.current.address []) same ∙ cut_lem c.current.address [] c.before b rest apart g.0 in
    rw (rewind_at, found) (rewind_to_lem t c b rest g small sum)

rewind-mark_at :
    (s t : Arena) (c : Chain)
    → s.chain ≡ some c
    → rewind t (mark s) ≡ rewind_at t c.current.address c.current.used
unfolding rewind mark
rewind-mark_at s t c e =
    let here : mark s ≡ record { block = some c.current.address; used = c.current.used } =
      rw (e, mark) refl in
    ap (rewind t) here

-- From a valid arena, whatever is allocated and grown after a mark, the rewind to it restores the chain up to its current block, with every cursor, and the count of live bytes, and empties the blocks behind, where the address of the marked block is not that of one before it and the live bytes stay below 2 ^ 64.
pub rewind-mark :
    (s : Arena) (c : Chain) {t : Arena}
    → s.chain ≡ some c
    → IsValid s
    → All (λ b. b.address ≢ c.current.address) c.before
    → Run s t
    → t.live_bytes < 2 ^ 64
    → IsRestored s.live_bytes c (rewind t (mark s))
unfolding blocks
rewind-mark s c {t = t} e v apart run small =
    let (valid, reach) = run_lem s c e v run in
    let l : IsLaid s.live_bytes c = subst (IsLaidChain s.live_bytes) e v.laid in
    elim (Option-cases t.chain) [
      | inl f ↦ absurd (subst (ReachesArena c) f reach)
      | inr (d, f) ↦
          let cut_here : IsCut c t.live_bytes (blocks t) =
            subst (IsCut c t.live_bytes) (rw (f, blocks) refl) (
              reach-IsCut c d t.live_bytes (subst (IsLaidChain t.live_bytes) f valid.laid)
                (subst (ReachesArena c) f reach)) in
          subst (IsRestored s.live_bytes c) (sym (rewind-mark_at s t c e)) (
            subst (λ n. IsRestored n c (rewind_at t c.current.address c.current.used))
              (sym l.counted) (rewind_at_lem t c apart small cut_here))
    ]
