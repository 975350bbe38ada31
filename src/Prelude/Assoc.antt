-- ===== src/Prelude/Assoc.antt =====
-- Hash maps as association lists with one entry for a key.
use mathlib.Core.Path.{◌≡◌, refl, sym, ap, subst, ◌∙◌}
use mathlib.Core.Logic.{◌≢◌, ◌⊎◌, inl, inr, ite, if_pos, if_neg}
use mathlib.Core.List.{List, [], ◌∷◌, ◌++◌}
use native.Mathlib.Omega.{arith}
use mathlib.Core.Option.{Option, none, some, some-injective}
use alpenite.Prelude.Tests.{some≢none}
use Prim.Native.Nat.{◌+◌}
use alpenite.Prelude.Lists.{All, All-map, All-zip, All-append_right, length}

module _ {K V : Type 0} (dec : Discrete K) where
  unfoldable pub lookup : List (K × V) → K → Option V
  lookup [] k = none
  lookup ((j, v) ∷ m) k = ite (dec j k) (some v) (lookup m k)

  -- `m[k] = v`.
  unfoldable pub assign : List (K × V) → K → V → List (K × V)
  assign [] k v = (k, v) ∷ []
  assign ((j, w) ∷ m) k v = let rest = assign m k v in ite (dec j k) ((k, v) ∷ m) ((j, w) ∷ rest)

  unfoldable pub remove : List (K × V) → K → List (K × V)
  remove [] k = []
  remove ((j, v) ∷ m) k = let rest = remove m k in ite (dec j k) rest ((j, v) ∷ rest)

  pub lookup-assign_self : (m : List (K × V)) (k : K) (v : V) → lookup (assign m k v) k ≡ some v
  unfolding lookup assign
  lookup-assign_self [] k v = ground arith
  lookup-assign_self ((j, w) ∷ m) k v = ground (arith, lookup-assign_self m k v)

  pub lookup-assign_ne :
      (m : List (K × V)) (k i : K) (v : V) → k ≢ i → lookup (assign m k v) i ≡ lookup m i
  unfolding lookup assign
  lookup-assign_ne [] k i v h = ground arith
  lookup-assign_ne ((j, w) ∷ m) k i v h = ground (arith, lookup-assign_ne m k i v h)

  pub lookup-remove_self : (m : List (K × V)) (k : K) → lookup (remove m k) k ≡ none
  unfolding lookup remove
  lookup-remove_self [] k = refl
  lookup-remove_self ((j, v) ∷ m) k = ground (arith, lookup-remove_self m k)

  pub lookup-remove_ne : (m : List (K × V)) (k i : K) → k ≢ i → lookup (remove m k) i ≡ lookup m i
  unfolding lookup remove
  lookup-remove_ne [] k i h = refl
  lookup-remove_ne ((j, v) ∷ m) k i h = ground (arith, lookup-remove_ne m k i h)

  -- No two entries of a map have one key.
  abbrev pub IsDistinctKeys : List (K × V) → Type 0
  IsDistinctKeys [] = Unit
  IsDistinctKeys ((k, v) ∷ m) = All (λ e. e.0 ≢ k) m × IsDistinctKeys m

  pub assign_absent :
      (m : List (K × V)) (k : K) (v : V) → lookup m k ≡ none → assign m k v ≡ m ++ (k, v) ∷ []
  unfolding lookup assign
  assign_absent [] k v h = refl
  assign_absent ((j, w) ∷ m) k v h = ground (arith, assign_absent m k v)

  pub lookup-append_ne :
      (m : List (K × V)) (k j : K) (v : V) → j ≢ k → lookup (m ++ (k, v) ∷ []) j ≡ lookup m j
  unfolding lookup
  lookup-append_ne [] k j v h = ground arith
  lookup-append_ne ((i, w) ∷ m) k j v h = ground (arith, lookup-append_ne m k j v h)

  -- What holds of every entry and of the new one holds of every entry after an assignment.
  pub All-assign {κ} :
      (P : K × V → Type κ) (m : List (K × V)) (k : K) (v : V)
      → All P m
      → P (k, v)
      → All P (assign m k v)
  unfolding assign
  All-assign P [] k v h p = (p, tt)
  All-assign P ((j, w) ∷ m) k v h p = elim (dec j k) [
    | yes q ↦ subst (All P) (sym (if_pos (dec j k) q ((k, v) ∷ m) ((j, w) ∷ assign m k v))) (p, h.1)
    | no q ↦
        subst (All P) (sym (if_neg (dec j k) q ((k, v) ∷ m) ((j, w) ∷ assign m k v)))
          (h.0, All-assign P m k v h.1 p)
  ]

  pub assign-IsDistinctKeys :
      (m : List (K × V)) (k : K) (v : V) → IsDistinctKeys m → IsDistinctKeys (assign m k v)
  unfolding assign
  assign-IsDistinctKeys [] k v d = (tt, tt)
  assign-IsDistinctKeys ((j, w) ∷ m) k v d = elim (dec j k) [
    | yes q ↦
        subst IsDistinctKeys (sym (if_pos (dec j k) q ((k, v) ∷ m) ((j, w) ∷ assign m k v)))
          (subst (λ x. All (λ e. e.0 ≢ x) m) q d.0, d.1)
    | no q ↦
        subst IsDistinctKeys (sym (if_neg (dec j k) q ((k, v) ∷ m) ((j, w) ∷ assign m k v)))
          (All-assign (λ e. e.0 ≢ j) m k v d.0 (λ p. q (sym p)), assign-IsDistinctKeys m k v d.1)
  ]

  pub lookup_absent : (m : List (K × V)) (k : K) → All (λ e. e.0 ≢ k) m → lookup m k ≡ none
  unfolding lookup
  lookup_absent [] k h = refl
  lookup_absent ((j, w) ∷ m) k h = ground (arith, lookup_absent m k h.1, h.0)

  -- The entry that a look-up finds is the only one of its key.
  pub lookup_only :
      (m : List (K × V)) (k : K) (v : V)
      → IsDistinctKeys m
      → lookup m k ≡ some v
      → All (λ e. e.0 ≡ k → e.1 ≡ v) m
  unfolding lookup
  lookup_only [] k v d h = tt
  lookup_only ((j, w) ∷ m) k v d h = elim (dec j k) [
    | yes p ↦ (
      (λ _. some-injective w v (sym (if_pos (dec j k) p (some w) (lookup m k)) ∙ h)),
      All-map (λ e. e.0 ≢ j) (λ e. e.0 ≡ k → e.1 ≡ v) m (λ e ne q. absurd (ne (q ∙ sym p))) d.0,
    )
    | no n ↦ (
      (λ q. absurd (n q)),
      lookup_only m k v d.1 (sym (if_neg (dec j k) n (some w) (lookup m k)) ∙ h),
    )
  ]

  pub lookup_member : (m : List (K × V)) → IsDistinctKeys m → All (λ e. lookup m e.0 ≡ some e.1) m
  unfolding lookup
  lookup_member [] d = tt
  lookup_member ((j, w) ∷ m) d = (
    if_pos (dec j j) refl (some w) (lookup m j),
    All-zip (λ e. e.0 ≢ j) (λ e. lookup m e.0 ≡ some e.1) (λ e. lookup ((j, w) ∷ m) e.0 ≡ some e.1)
        m (λ e ne same. if_neg (dec j e.0) (λ p. ne (sym p)) (some w) (lookup m e.0) ∙ same) d.0
        (lookup_member m d.1),
  )

  pub remove_absent : (m : List (K × V)) (k : K) → All (λ e. e.0 ≢ k) m → remove m k ≡ m
  unfolding remove
  remove_absent [] k h = refl
  remove_absent ((j, w) ∷ m) k h =
      if_neg (dec j k) h.0 (remove m k) ((j, w) ∷ remove m k)
      ∙ ap (λ n. (j, w) ∷ n) (remove_absent m k h.1)

  pub length-remove :
      (m : List (K × V)) (k : K) (v : V)
      → IsDistinctKeys m
      → lookup m k ≡ some v
      → length (remove m k) + 1 ≡ length m
  unfolding remove lookup
  length-remove [] k v d h = absurd (some≢none (sym h))
  length-remove ((j, w) ∷ m) k v d h = elim (dec j k) [
    | yes p ↦
        let same : remove ((j, w) ∷ m) k ≡ m =
          if_pos (dec j k) p (remove m k) ((j, w) ∷ remove m k)
          ∙ remove_absent m k (subst (λ x. All (λ e. e.0 ≢ x) m) p d.0) in
        ap (λ n. length n + 1) same ∙ omega arith
    | no n ↦
        let rest = length-remove m k v d.1 (sym (if_neg (dec j k) n (some w) (lookup m k)) ∙ h) in
        ap (λ n. length n + 1) (if_neg (dec j k) n (remove m k) ((j, w) ∷ remove m k))
        ∙ omega (arith, rest)
  ]

  All-remove {κ} : (P : K × V → Type κ) (m : List (K × V)) (k : K) → All P m → All P (remove m k)
  unfolding remove
  All-remove P [] k h = tt
  All-remove P ((j, w) ∷ m) k h = elim (dec j k) [
    | yes p ↦
        subst (All P) (sym (if_pos (dec j k) p (remove m k) ((j, w) ∷ remove m k)))
          (All-remove P m k h.1)
    | no n ↦
        subst (All P) (sym (if_neg (dec j k) n (remove m k) ((j, w) ∷ remove m k)))
          (h.0, All-remove P m k h.1)
  ]

  pub remove-IsDistinctKeys :
      (m : List (K × V)) (k : K) → IsDistinctKeys m → IsDistinctKeys (remove m k)
  unfolding remove
  remove-IsDistinctKeys [] k d = tt
  remove-IsDistinctKeys ((j, w) ∷ m) k d = elim (dec j k) [
    | yes p ↦
        subst IsDistinctKeys (sym (if_pos (dec j k) p (remove m k) ((j, w) ∷ remove m k)))
          (remove-IsDistinctKeys m k d.1)
    | no n ↦
        subst IsDistinctKeys (sym (if_neg (dec j k) n (remove m k) ((j, w) ∷ remove m k)))
          (All-remove (λ e. e.0 ≢ j) m k d.0, remove-IsDistinctKeys m k d.1)
  ]

  pub All-lookup {κ} :
      (P : K × V → Type κ) (m : List (K × V)) (k : K) (v : V)
      → All P m
      → lookup m k ≡ some v
      → P (k, v)
  unfolding lookup
  All-lookup P [] k v h e = absurd (some≢none (sym e))
  All-lookup P ((j, w) ∷ m) k v h e = elim (dec j k) [
    | yes p ↦
        let same = some-injective w v (sym (if_pos (dec j k) p (some w) (lookup m k)) ∙ e) in
        subst (λ x. P (k, x)) same (subst (λ x. P (x, w)) p h.0)
    | no n ↦ All-lookup P m k v h.1 (sym (if_neg (dec j k) n (some w) (lookup m k)) ∙ e)
  ]

  pub lookup-split :
      (m n : List (K × V)) (k : K) (v : V)
      → lookup (m ++ n) k ≡ some v
      → (lookup m k ≡ some v) ⊎ (lookup n k ≡ some v)
  unfolding lookup
  lookup-split [] n k v h = inr h
  lookup-split ((j, w) ∷ m) n k v h = elim (dec j k) [
    | yes p ↦ inl (
        if_pos (dec j k) p (some w) (lookup m k)
        ∙ sym (if_pos (dec j k) p (some w) (lookup (m ++ n) k))
        ∙ h)
    | no q ↦
        elim (lookup-split m n k v (sym (if_neg (dec j k) q (some w) (lookup (m ++ n) k)) ∙ h)) [
          | inl a ↦ inl (if_neg (dec j k) q (some w) (lookup m k) ∙ a)
          | inr b ↦ inr b
        ]
  ]

  -- A key that the first part of a map has is not in the second.
  pub lookup_first :
      (m n : List (K × V)) (k : K) (v : V)
      → IsDistinctKeys (m ++ n)
      → lookup m k ≡ some v
      → All (λ e. e.0 ≢ k) n
  unfolding lookup
  lookup_first [] n k v d h = absurd (some≢none (sym h))
  lookup_first ((j, w) ∷ m) n k v d h = elim (dec j k) [
    | yes p ↦ subst (λ x. All (λ e. e.0 ≢ x) n) p (All-append_right (λ e. e.0 ≢ j) m n d.0)
    | no q ↦ lookup_first m n k v d.1 (sym (if_neg (dec j k) q (some w) (lookup m k)) ∙ h)
  ]
