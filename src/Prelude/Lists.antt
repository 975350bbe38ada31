-- ===== src/Prelude/Lists.antt =====
-- Lists measured by native numbers, sets as lists without repetition, and predicates on all items.
use Prim.Native.Nat.{ℕ, zero, suc, ◌+◌, ◌≤◌}
use mathlib.Core.Path.{◌≡◌, refl}
use mathlib.Core.Logic.{◌≢◌, ◌⊎◌, inl, inr, ite}
use mathlib.Core.Bool.{Bool, true, false}
use mathlib.Core.List.{List, [], ◌∷◌, ◌++◌}
use mathlib.Core.Option.{Option, none, some}
use native.Mathlib.Omega.{arith}
use alpenite.Prelude.Tests.{Bool-cases}

module _ {ℓ} {A : Type ℓ} where
  abbrev pub length : List A → ℕ
  length [] = 0
  length (x ∷ xs) = suc (length xs)

  pub length-append : (xs ys : List A) → length (xs ++ ys) ≡ length xs + length ys
  length-append [] ys = omega arith
  length-append (x ∷ xs) ys = omega (arith, length-append xs ys)

  abbrev pub take : ℕ → List A → List A
  take zero xs = []
  take (suc n) [] = []
  take (suc n) (x ∷ xs) = x ∷ take n xs

  abbrev pub drop : ℕ → List A → List A
  drop zero xs = xs
  drop (suc n) [] = []
  drop (suc n) (x ∷ xs) = drop n xs

  abbrev pub get_elem? : List A → ℕ → Option A
  get_elem? [] i = none
  get_elem? (x ∷ xs) zero = some x
  get_elem? (x ∷ xs) (suc i) = get_elem? xs i

  abbrev pub All {κ} : (A → Type κ) → List A → Type κ
  All P [] = Unit
  All P (x ∷ xs) = P x × All P xs

  pub All-map {κ μ} :
      (P : A → Type κ) (Q : A → Type μ) (xs : List A) → ((x : A) → P x → Q x) → All P xs → All Q xs
  All-map P Q [] f h = tt
  All-map P Q (x ∷ xs) f h = (f x h.0, All-map P Q xs f h.1)

  pub All-zip {κ μ ν} :
      (P : A → Type κ) (Q : A → Type μ) (R : A → Type ν) (xs : List A)
      → ((x : A) → P x → Q x → R x)
      → All P xs
      → All Q xs
      → All R xs
  All-zip P Q R [] f h k = tt
  All-zip P Q R (x ∷ xs) f h k = (f x h.0 k.0, All-zip P Q R xs f h.1 k.1)

  pub All-append_right {κ} : (P : A → Type κ) (xs ys : List A) → All P (xs ++ ys) → All P ys
  All-append_right P [] ys h = h
  All-append_right P (x ∷ xs) ys h = All-append_right P xs ys h.1

  pub All-append {κ} : (P : A → Type κ) (xs ys : List A) → All P xs → All P ys → All P (xs ++ ys)
  All-append P [] ys hx hy = hy
  All-append P (x ∷ xs) ys hx hy = (hx.0, All-append P xs ys hx.1 hy)

pub take-drop {ℓ} : {A : Type ℓ} (n : ℕ) (xs : List A) → take n xs ++ drop n xs ≡ xs
take-drop zero xs = refl
take-drop (suc n) [] = refl
take-drop (suc n) (x ∷ xs) = rw (take-drop n xs) refl

pub length-drop {ℓ} :
    {A : Type ℓ} (n : ℕ) (xs : List A) → n ≤ length xs → length (drop n xs) + n ≡ length xs
length-drop zero xs h = omega arith
length-drop (suc n) [] h = omega arith
length-drop (suc n) (x ∷ xs) h = omega (arith, length-drop n xs (omega arith))

pub List-cases {ℓ} :
    {A : Type ℓ} (xs : List A) → (xs ≡ []) ⊎ ((y : A) × ((ys : List A) × (xs ≡ y ∷ ys)))
List-cases [] = inl refl
List-cases (x ∷ xs) = inr (x, (xs, refl))

pub append-empty {ℓ} : {A : Type ℓ} (xs ys : List A) → xs ++ ys ≡ [] → (xs ≡ []) × (ys ≡ [])
append-empty [] ys h = (refl, h)
append-empty (x ∷ xs) ys h = absurd (cc)

-- A set is a list; membership and removal compare by a decidable equality.
module _ {A : Type 0} (dec : Discrete A) where
  unfoldable pub contains : List A → A → Bool
  contains [] a = false
  contains (x ∷ xs) a = ite (dec x a) true (contains xs a)

  unfoldable pub erase : List A → A → List A
  erase [] a = []
  erase (x ∷ xs) a = ite (dec x a) xs (x ∷ erase xs a)

  -- `insert` of a set: an item that is there already changes nothing.
  unfoldable pub insert : List A → A → List A
  unfolding contains
  insert xs a = elim (contains xs a) [ true ↦ xs | false ↦ xs ++ a ∷ [] ]

  abbrev pub IsDistinct : List A → Type 0
  IsDistinct [] = Unit {0}
  IsDistinct (x ∷ xs) = (contains xs x ≡ false) × IsDistinct xs

  pub contains-append_right :
      (xs ys : List A) (a : A) → contains ys a ≡ true → contains (xs ++ ys) a ≡ true
  unfolding contains
  contains-append_right [] ys a h = h
  contains-append_right (x ∷ xs) ys a h = ground (arith, contains-append_right xs ys a h)

  pub contains-append_left :
      (xs ys : List A) (a : A) → contains xs a ≡ true → contains (xs ++ ys) a ≡ true
  unfolding contains
  contains-append_left [] ys a h = absurd (cc)
  contains-append_left (x ∷ xs) ys a h = ground (arith, contains-append_left xs ys a)

  pub contains-append_none :
      (xs ys : List A) (a : A)
      → contains xs a ≡ false
      → contains ys a ≡ false
      → contains (xs ++ ys) a ≡ false
  unfolding contains
  contains-append_none [] ys a h k = k
  contains-append_none (x ∷ xs) ys a h k = ground (arith, contains-append_none xs ys a)

  pub contains_self : (xs : List A) (a : A) → contains (xs ++ a ∷ []) a ≡ true
  unfolding contains
  contains_self [] a = ground arith
  contains_self (x ∷ xs) a = ground (arith, contains_self xs a)

  pub contains-erase_ne : (xs : List A) (a b : A) → a ≢ b → contains (erase xs a) b ≡ contains xs b
  unfolding contains erase
  contains-erase_ne [] a b h = refl
  contains-erase_ne (x ∷ xs) a b h = ground (arith, contains-erase_ne xs a b h)

  pub contains-erase_none :
      (xs : List A) (a b : A) → contains xs b ≡ false → contains (erase xs a) b ≡ false
  unfolding contains erase
  contains-erase_none [] a b h = refl
  contains-erase_none (x ∷ xs) a b h = ground (arith, contains-erase_none xs a b)

  pub erase-IsDistinct : (xs : List A) (a : A) → IsDistinct xs → IsDistinct (erase xs a)
  unfolding erase
  erase-IsDistinct [] a d = tt
  erase-IsDistinct (x ∷ xs) a d = ground (arith, contains-erase_none xs a x, erase-IsDistinct xs a)

  pub contains-erase_self : (xs : List A) (a : A) → IsDistinct xs → contains (erase xs a) a ≡ false
  unfolding contains erase
  contains-erase_self [] a d = refl
  contains-erase_self (x ∷ xs) a d = ground (arith, contains-erase_self xs a)

  pub length-erase :
      (xs : List A) (a : A) → contains xs a ≡ true → length (erase xs a) + 1 ≡ length xs
  unfolding contains erase
  length-erase [] a h = absurd (cc)
  length-erase (x ∷ xs) a h = ground (arith, length-erase xs a)

  pub erase_absent : (xs : List A) (a : A) → contains xs a ≡ false → erase xs a ≡ xs
  unfolding contains erase
  erase_absent [] a h = refl
  erase_absent (x ∷ xs) a h = ground (arith, erase_absent xs a)

  pub snoc-IsDistinct :
      (xs : List A) (a : A) → IsDistinct xs → contains xs a ≡ false → IsDistinct (xs ++ a ∷ [])
  unfolding contains
  snoc-IsDistinct [] a d h = (refl, tt)
  snoc-IsDistinct (x ∷ xs) a d h =
      ground (arith, snoc-IsDistinct xs a, contains-append_none xs (a ∷ []) x)

  pub insert_absent : (xs : List A) (a : A) → contains xs a ≡ false → insert xs a ≡ xs ++ a ∷ []
  unfolding insert
  insert_absent xs a h = rw (h, insert)

  pub insert-IsDistinct : (xs : List A) (a : A) → IsDistinct xs → IsDistinct (insert xs a)
  unfolding insert
  insert-IsDistinct xs a d = elim (Bool-cases (contains xs a)) [
    | inl old ↦ rw (old, insert) d
    | inr new ↦ rw (new, insert) (snoc-IsDistinct xs a d new)
  ]

  pub contains-insert_self : (xs : List A) (a : A) → contains (insert xs a) a ≡ true
  unfolding insert
  contains-insert_self xs a = elim (Bool-cases (contains xs a)) [
    | inl old ↦ rw (old, insert) old
    | inr new ↦ rw (new, insert) (contains_self xs a)
  ]

  pub contains-insert_old :
      (xs : List A) (a b : A) → contains xs b ≡ true → contains (insert xs a) b ≡ true
  unfolding insert
  contains-insert_old xs a b h = elim (Bool-cases (contains xs a)) [
    | inl old ↦ rw (old, insert) h
    | inr new ↦ rw (new, insert) (contains-append_left xs (a ∷ []) b h)
  ]

  -- An id that is not in a list differs from every item of the list.
  pub apart_one :
      (a : A) (xs : List A) → contains xs a ≡ false → All (λ x. contains (a ∷ []) x ≡ false) xs
  unfolding contains
  apart_one a [] h = tt
  apart_one a (x ∷ xs) h = (ground arith, apart_one a xs (ground arith))
