-- ===== src/Prelude/Maps.antt =====
-- Arrays and maps with numbers for keys, as functions.
use Prim.Native.Nat.{ℕ}
use mathlib.Core.Logic.{ite, if_pos, if_neg, ◌≢◌}
use mathlib.Core.Path.{◌≡◌, refl}
use native.Mathlib.Decide.{ℕ_discrete}

module _ {ℓ} {V : Type ℓ} where
  unfoldable pub update : (ℕ → V) → ℕ → V → ℕ → V
  update f k v j = ite (ℕ_discrete k j) v (f j)

  pub update_self : (f : ℕ → V) (k : ℕ) (v : V) → update f k v k ≡ v
  unfolding update
  update_self f k v = if_pos (ℕ_discrete k k) refl v (f k)

  pub update_ne : (f : ℕ → V) (k j : ℕ) (v : V) → k ≢ j → update f k v j ≡ f j
  unfolding update
  update_ne f k j v h = if_neg (ℕ_discrete k j) h v (f j)
