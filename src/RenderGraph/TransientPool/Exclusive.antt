-- ===== src/RenderGraph/TransientPool/Exclusive.antt =====
-- What acquire() hands out.
use alpenite.Prelude.{
  ℕ, suc, ◌≡◌, refl, inl, inr, Bool, true, false, none, some, List, ◌∷◌, sym, subst, arith,
  Option-cases, contains, ℕ_discrete, IsDistinct,
}
use alpenite.RenderGraph.Access.{TextureUsage, BufferUsage}
use alpenite.RenderGraph.Resources.{TexSignature}
use alpenite.RenderGraph.TransientPool.Defs.{
  Claim, TransientPool, is_free_texture, claim_first, acquire_or, new_texture, acquire_texture,
  is_free_buffer, new_buffer, acquire_buffer,
}
use alpenite.RenderGraph.TransientPool.Claims.{
  is_claimed, objects, not_claimed, claim_first-IsGranted, is_free_texture-free,
  is_free_buffer-free,
}

-- The object that a call hands out was not in use and now is, all that was in use stays so, and no two
-- entries share an object.
pub record IsExclusive (pool : TransientPool) (r : TransientPool × ℕ) : Type 0 where
  pub was_free : is_claimed pool.claims r.1 ≡ false
  pub is_taken : is_claimed r.0.claims r.1 ≡ true
  pub keeps : (o : ℕ) → is_claimed pool.claims o ≡ true → is_claimed r.0.claims o ≡ true
  pub distinct : IsDistinct ℕ_discrete (objects r.0.claims)

module _ (fits : Claim → Bool) (new : Claim) (identity : ℕ) (pool : TransientPool) where
  acquire_or-some :
      (r : List Claim × ℕ)
      → claim_first fits pool.frame identity pool.claims ≡ some r
      → acquire_or fits new identity pool ≡ (record pool { claims = r.0 }, r.1)
  unfolding acquire_or
  acquire_or-some r e = rw (e, acquire_or) refl

  acquire_or-none :
      claim_first fits pool.frame identity pool.claims ≡ none
      → acquire_or fits new identity pool ≡ (
        record pool {
          claims = new ∷ pool.claims;
          created_this_frame = suc pool.created_this_frame;
        },
        new.object,
      )
  unfolding acquire_or
  acquire_or-none e = rw (e, acquire_or) refl

  new-IsExclusive :
      contains ℕ_discrete (objects pool.claims) new.object ≡ false
      → new.in_use ≡ true
      → IsDistinct ℕ_discrete (objects pool.claims)
      → IsExclusive pool (
        record pool {
          claims = new ∷ pool.claims;
          created_this_frame = suc pool.created_this_frame;
        },
        new.object,
      )
  unfolding is_claimed
  new-IsExclusive fresh used d = record {
    was_free = not_claimed pool.claims new.object fresh;
    is_taken = ground arith;
    keeps = λ o h. ground arith;
    distinct = (fresh, d);
  }

  acquire_or-IsExclusive :
      ((e : Claim) → fits e ≡ true → e.in_use ≡ false)
      → contains ℕ_discrete (objects pool.claims) new.object ≡ false
      → new.in_use ≡ true
      → IsDistinct ℕ_discrete (objects pool.claims)
      → IsExclusive pool (acquire_or fits new identity pool)
  acquire_or-IsExclusive free fresh used d =
      elim (Option-cases (claim_first fits pool.frame identity pool.claims)) [
        | inl nothing ↦
            subst (IsExclusive pool) (sym (acquire_or-none nothing)) (new-IsExclusive fresh used d)
        | inr (r, found) ↦
            let g = claim_first-IsGranted fits pool.frame identity free pool.claims r d found in
            subst (IsExclusive pool) (sym (acquire_or-some r found)) (record {
              was_free = g.was_free;
              is_taken = g.is_taken;
              keeps = g.keeps;
              distinct = subst (IsDistinct ℕ_discrete) (sym g.same) d;
            })
      ]

-- Let no two entries of the pool share an object and let the device make one that is new to it. Then the texture that is handed out was not in use and now is, every object in use stays in use, and still no two entries share one: until the claims are released, no texture is handed out twice.
pub acquire_texture-IsExclusive :
    (fresh : ℕ) (signature : TexSignature) (usage : List TextureUsage) (identity : ℕ)
    (pool : TransientPool)
    → contains ℕ_discrete (objects pool.claims) fresh ≡ false
    → IsDistinct ℕ_discrete (objects pool.claims)
    → IsExclusive pool (acquire_texture fresh signature usage identity pool)
unfolding acquire_texture new_texture
acquire_texture-IsExclusive fresh signature usage identity pool new d =
    acquire_or-IsExclusive (is_free_texture signature usage)
      (new_texture fresh signature usage identity pool.frame) identity pool
      (is_free_texture-free signature usage) new refl d

-- The same for buffers: the buffer that is handed out was not in use and now is, every object in use stays in use, and no two entries share one, if that held before and the device makes a new object.
pub acquire_buffer-IsExclusive :
    (fresh : ℕ) (blank : TexSignature) (size : ℕ) (usage : List BufferUsage) (identity : ℕ)
    (pool : TransientPool)
    → contains ℕ_discrete (objects pool.claims) fresh ≡ false
    → IsDistinct ℕ_discrete (objects pool.claims)
    → IsExclusive pool (acquire_buffer fresh blank size usage identity pool)
unfolding acquire_buffer new_buffer
acquire_buffer-IsExclusive fresh blank size usage identity pool new d =
    acquire_or-IsExclusive (is_free_buffer size usage)
      (new_buffer fresh blank size usage identity pool.frame) identity pool
      (is_free_buffer-free size usage) new refl d
