-- ===== src/RenderGraph/Arena/Regions.antt =====
-- The memory that is left of a chain, and regions apart from it.
use alpenite.Prelude.{ℕ, ◌+◌, ◌≤◌, arith, ◌⊎◌, inl, List, [], ◌∷◌, All, map}
use alpenite.RenderGraph.Arena.Defs.{Block, Chain}

-- Bytes from `first` up to and without `last`.
pub record Region : Type 0 where
  pub first : ℕ
  pub last : ℕ

abbrev pub IsApart : Region → Region → Type 0
IsApart r q = (r.last ≤ q.first) ⊎ (q.last ≤ r.first)

unfoldable pub region : ℕ → ℕ → Region
region p size = record { first = p; last = p + size }

-- What is left of a block.
unfoldable pub free_of : Block → Region
free_of b = record { first = b.payload + b.used; last = b.payload + b.capacity }

unfoldable pub whole : Block → Region
whole b = record { first = b.payload; last = b.payload + b.capacity }

-- The memory that later allocations may hand out.
unfoldable pub spaces : Chain → List Region
unfolding free_of whole
spaces c = free_of c.current ∷ map whole c.next

abbrev pub AllPairs : List Region → Type 0
AllPairs [] = Unit {0}
AllPairs (r ∷ rs) = All (IsApart r) rs × AllPairs rs

-- The live regions `rs` are apart from all memory that is left, and the parts of that from each
-- other.
pub record IsExclusive (c : Chain) (rs : List Region) : Type 0 where
  pub reserved : All (λ r. All (IsApart r) (spaces c)) rs
  pub disjoint : AllPairs (spaces c)

-- A region within another one is apart from what that one is apart from.
pub within-IsApart :
    (r q : Region) (rs : List Region)
    → q.first ≤ r.first
    → r.last ≤ q.last
    → All (IsApart q) rs
    → All (IsApart r) rs
within-IsApart r q [] h k a = tt
within-IsApart r q (x ∷ rs) h k a = (ground (arith, a.0), within-IsApart r q rs h k a.1)

pub IsApart-heads :
    (q : Region) (qs rs : List Region) → All (λ r. All (IsApart r) (q ∷ qs)) rs → All (IsApart q) rs
IsApart-heads q qs [] h = tt
IsApart-heads q qs (r ∷ rs) h = (ground (arith, h.0.0), IsApart-heads q qs rs h.1)

pub IsApart-shrink :
    (r q : Region) (qs rs : List Region)
    → q.first ≤ r.first
    → r.last ≤ q.last
    → All (λ x. All (IsApart x) (q ∷ qs)) rs
    → All (λ x. All (IsApart x) (r ∷ qs)) rs
IsApart-shrink r q qs [] h k a = tt
IsApart-shrink r q qs (x ∷ rs) h k a =
    ((ground (arith, a.0.0), a.0.1), IsApart-shrink r q qs rs h k a.1)

pub bump-IsExclusive :
    (c : Chain) (rs : List Region) (off size : ℕ)
    → IsExclusive c rs
    → c.current.used ≤ off
    → off + size ≤ c.current.capacity
    → All (IsApart (region (c.current.payload + off) size)) rs
      × IsExclusive
          (record c { current = record c.current { used = off + size } })
          (region (c.current.payload + off) size ∷ rs)
unfolding spaces free_of region
bump-IsExclusive c rs off size x low high =
    let b = c.current in
    let given = region (b.payload + off) size in
    let left = free_of (record b { used = off + size }) in
    let qs = map whole c.next in
    (
      within-IsApart given (free_of b) rs (omega arith) (omega arith)
          (IsApart-heads (free_of b) qs rs x.reserved),
      record {
        reserved = (
          (
            inl (omega arith),
            within-IsApart given (free_of b) qs (omega arith) (omega arith) x.disjoint.0,
          ),
          IsApart-shrink left (free_of b) qs rs (omega arith) (omega arith) x.reserved,
        );
        disjoint = (
          within-IsApart left (free_of b) qs (omega arith) (omega arith) x.disjoint.0,
          x.disjoint.1,
        );
      },
    )

pub IsApart-replace :
    (r q : Region) (qs rs : List Region)
    → All (IsApart r) rs
    → All (λ x. All (IsApart x) (q ∷ qs)) rs
    → All (λ x. All (IsApart x) (r ∷ qs)) rs
IsApart-replace r q qs [] h a = tt
IsApart-replace r q qs (x ∷ rs) h a =
    ((ground (arith, h.0), a.0.1), IsApart-replace r q qs rs h.1 a.1)

pub IsApart-drop :
    (q : Region) (qs rs : List Region)
    → All (λ x. All (IsApart x) (q ∷ qs)) rs
    → All (λ x. All (IsApart x) qs) rs
IsApart-drop q qs [] a = tt
IsApart-drop q qs (x ∷ rs) a = (a.0.1, IsApart-drop q qs rs a.1)
