-- ===== src/RenderGraph/Depends.antt =====
-- Dependence between passes: the reflexive and transitive closure of adjacency lists.
use alpenite.Prelude.{
  ℕ, ◌≤◌, ◌<◌, ◌≡◌, true, List, [], ◌∷◌, ◌++◌, ◌⊎◌, ◌≢◌, false, contains, ℕ_discrete, arith,
}

abbrev pub Has : List ℕ → ℕ → Type 0
Has xs a = contains ℕ_discrete xs a ≡ true

pub not-Has-nil : (d : ℕ) → Has [] d → ⊥
unfolding contains
not-Has-nil d h = cc

pub not-Has-one : (x v : ℕ) → x ≢ v → contains ℕ_discrete (x ∷ []) v ≡ false
unfolding contains
not-Has-one x v h = ground arith

pub Has-append_cases : (xs : List ℕ) (x v : ℕ) → Has (xs ++ x ∷ []) v → Has xs v ⊎ (x ≡ v)
unfolding contains
Has-append_cases [] x v h = ground arith
Has-append_cases (y ∷ xs) x v h = ground (arith, Has-append_cases xs x v)

pub Has-cons_self : (x : ℕ) (xs : List ℕ) → Has (x ∷ xs) x
unfolding contains
Has-cons_self x xs = ground arith

pub Has-cons : (x y : ℕ) (xs : List ℕ) → Has xs y → Has (x ∷ xs) y
unfolding contains
Has-cons x y xs h = ground arith

pub Has-cons_cases : (x y : ℕ) (xs : List ℕ) → Has (x ∷ xs) y → (x ≡ y) ⊎ Has xs y
unfolding contains
Has-cons_cases x y xs h = ground arith

pub data DependsOn (adjacency : ℕ → List ℕ) : ℕ → ℕ → Type 0 where
  self : (p : ℕ) → DependsOn adjacency p p
  via : {p q r : ℕ} → Has (adjacency p) q → DependsOn adjacency q r → DependsOn adjacency p r

abbrev pub Sub : (ℕ → List ℕ) → (ℕ → List ℕ) → Type 0
Sub adj more = (p q : ℕ) → Has (adj p) q → Has (more p) q

-- Every edge goes to an earlier pass.
abbrev pub IsBackward : (ℕ → List ℕ) → Type 0
IsBackward adj = (p q : ℕ) → Has (adj p) q → q < p

pub DependsOn-mono :
    (adj more : ℕ → List ℕ) {p q : ℕ} → Sub adj more → DependsOn adj p q → DependsOn more p q
DependsOn-mono adj more h (self p) = self p
DependsOn-mono adj more h (via {p} {q} e d) = via (h p q e) (DependsOn-mono adj more h d)

pub DependsOn-trans :
    {adj : ℕ → List ℕ} {p q r : ℕ} → DependsOn adj p q → DependsOn adj q r → DependsOn adj p r
DependsOn-trans (self p) e = e
DependsOn-trans (via h d) e = via h (DependsOn-trans d e)

pub DependsOn-le : {adj : ℕ → List ℕ} {p q : ℕ} → IsBackward adj → DependsOn adj p q → q ≤ p
DependsOn-le b (self p) = omega arith
DependsOn-le b (via {p} {q} e d) = omega (arith, b p q e, DependsOn-le b d)
