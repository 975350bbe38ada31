-- ===== src/RenderGraph/Arena/Layout.antt =====
-- What a chain of blocks keeps: cursors within the blocks, nothing used behind the current block, and
-- live_bytes as the sum of the cursors.
use native.Mathlib.Nat.{mod-eq_of_lt}
use alpenite.Prelude.{
  ℕ, ◌+◌, ◌-◌, ◌*◌, ◌/◌, ◌%◌, ◌^◌, ◌≤◌, ◌<◌, ◌≡◌, refl, arith, Option, none, some, List, [], ◌∷◌,
  ◌++◌, ◌∙◌, All, map,
}
use alpenite.RenderGraph.Arena.Defs.{wrap, minus, align_up, Block, Chain, Arena, empty, release}

round_lem : (n a : ℕ) → 0 < a → (n / a * a ≤ n) × (n < n / a * a + a) × ((n / a * a) % a ≡ 0)
round_lem n a h = grind arith

pub wrap_small : (n : ℕ) → n < 2 ^ 64 → wrap n ≡ n
unfolding wrap
wrap_small n h = mod-eq_of_lt h

pub minus_lem : (a b : ℕ) → b ≤ a → a < 2 ^ 64 → minus a b ≡ a - b
unfolding minus
minus_lem a b h k = omega arith

pub align_up_lem :
    (v a : ℕ)
    → 0 < a
    → v + a < 2 ^ 64
    → (v ≤ align_up v a) × (align_up v a < v + a) × (align_up v a % a ≡ 0)
unfolding align_up
align_up_lem v a h k =
    rw (align_up, wrap_small (v + a - 1) (omega arith))
      (let (low, high, even) = round_lem (v + a - 1) a h in ((omega arith), (omega arith), even))

-- The cursor is within the capacity, and the payload within the address space and aligned.
pub record IsBlock (b : Block) : Type 0 where
  pub within : b.used ≤ b.capacity
  pub addressed : b.payload + b.capacity < 2 ^ 64
  pub aligned : b.payload % 16 ≡ 0

abbrev pub IsEmpty : Block → Type 0
IsEmpty b = b.used ≡ 0

abbrev pub total : List Block → ℕ
total [] = 0
total (b ∷ bs) = b.used + total bs

pub total-append : (bs cs : List Block) → total (bs ++ cs) ≡ total bs + total cs
total-append [] cs = omega arith
total-append (b ∷ bs) cs = omega (arith, total-append bs cs)

-- The cursors of a chain add up to `live`, and the blocks behind the current one are empty.
pub record IsLaid (live : ℕ) (c : Chain) : Type 0 where
  pub before : All IsBlock c.before
  pub current : IsBlock c.current
  pub next : All IsBlock c.next
  pub clean : All IsEmpty c.next
  pub counted : live ≡ total c.before + c.current.used

abbrev pub IsLaidChain : ℕ → Option Chain → Type 0
IsLaidChain live none = live ≡ 0
IsLaidChain live (some c) = IsLaid live c

-- A state of the arena: without a chain nothing is live.
pub record IsValid (s : Arena) : Type 0 where
  pub laid : IsLaidChain s.live_bytes s.chain
  pub peaked : s.live_bytes ≤ s.peak_usage

pub minus_zero : (a : ℕ) → a < 2 ^ 64 → minus a 0 ≡ a
minus_zero a h = minus_lem a 0 (omega arith) h ∙ omega arith

pub release_clean :
    (live : ℕ) (bs : List Block) → All IsEmpty bs → live < 2 ^ 64 → release live bs ≡ live
unfolding release
release_clean live [] h k = refl
release_clean live (b ∷ bs) h k = rw (h.0, minus_zero live k) (release_clean live bs h.1 k)

empty_clean : (b : Block) → IsEmpty b → empty b ≡ b
unfolding empty
empty_clean b h = cc

pub map-empty_clean : (bs : List Block) → All IsEmpty bs → map empty bs ≡ bs
map-empty_clean [] h = refl
map-empty_clean (b ∷ bs) h = rw (empty_clean b h.0, map-empty_clean bs h.1) refl
