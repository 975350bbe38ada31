-- ===== src/RenderGraph/TransientPool/Claims.antt =====
-- No object is handed out twice in a frame.
use alpenite.Prelude.{
  ℕ, ◌≡◌, refl, ◌≢◌, inl, inr, Bool, true, false, ◌&&◌, ◌||◌, none, some, List, [], ◌∷◌, map, sym,
  ap, ◌∙◌, subst, ◌==◌, arith, Bool-cases, Option-cases, contains, ℕ_discrete, IsDistinct,
  some-injective,
}
use alpenite.RenderGraph.Access.{TextureUsage, BufferUsage}
use alpenite.RenderGraph.Resources.{TexSignature}
use alpenite.RenderGraph.TransientPool.Defs.{Claim, is_free_texture, claim_first, is_free_buffer}

-- Is the object one that is in use?
unfoldable pub is_claimed : List Claim → ℕ → Bool
is_claimed [] object = false
is_claimed (e ∷ claims) object = ((e.object == object) && e.in_use) || is_claimed claims object

abbrev pub objects : List Claim → List ℕ
objects = map (λ (e : Claim). e.object)

pub not_claimed :
    (claims : List Claim) (object : ℕ)
    → contains ℕ_discrete (objects claims) object ≡ false
    → is_claimed claims object ≡ false
unfolding is_claimed contains
not_claimed [] object h = refl
not_claimed (e ∷ claims) object h = ground (arith, not_claimed claims object)

-- What a claim of the first entry that fits does.
pub record IsGranted (before after : List Claim) (object : ℕ) : Type 0 where
  pub member : contains ℕ_discrete (objects before) object ≡ true
  pub was_free : is_claimed before object ≡ false
  pub is_taken : is_claimed after object ≡ true
  pub keeps : (o : ℕ) → is_claimed before o ≡ true → is_claimed after o ≡ true
  pub same : objects after ≡ objects before

head-IsGranted :
    (e : Claim) (claims : List Claim) (frame identity : ℕ)
    → e.in_use ≡ false
    → contains ℕ_discrete (objects claims) e.object ≡ false
    → IsGranted
        (e ∷ claims)
        (record e { in_use = true; last_used_frame = frame; identity = identity } ∷ claims)
        e.object
unfolding is_claimed contains
head-IsGranted e claims frame identity free new = record {
  member = ground arith;
  was_free = ground (arith, not_claimed claims e.object new);
  is_taken = ground arith;
  keeps = λ o h. ground arith;
  same = refl;
}

tail-IsGranted :
    (e : Claim) (claims later : List Claim) (object : ℕ)
    → contains ℕ_discrete (objects claims) e.object ≡ false
    → IsGranted claims later object
    → IsGranted (e ∷ claims) (e ∷ later) object
unfolding is_claimed contains
tail-IsGranted e claims later object new g =
    let other : e.object ≢ object = λ same. absurd (cc (new, g.member, same)) in
    record {
      member = ground (arith, g.member);
      was_free = ground (arith, g.was_free, other);
      is_taken = ground (arith, g.is_taken);
      keeps = λ o h. ground (arith, g.keeps o);
      same = ap (λ l. e.object ∷ l) g.same;
    }

module _ (fits : Claim → Bool) (frame identity : ℕ) where
  claimed : Claim → Claim
  claimed e = record e { in_use = true; last_used_frame = frame; identity = identity }

  claim_first-head :
      (e : Claim) (claims : List Claim)
      → fits e ≡ true
      → claim_first fits frame identity (e ∷ claims) ≡ some (claimed e ∷ claims, e.object)
  unfolding claim_first claimed
  claim_first-head e claims is = rw is refl

  claim_first-tail :
      (e : Claim) (claims later : List Claim) (object : ℕ)
      → fits e ≡ false
      → claim_first fits frame identity claims ≡ some (later, object)
      → claim_first fits frame identity (e ∷ claims) ≡ some (e ∷ later, object)
  unfolding claim_first
  claim_first-tail e claims later object isnt found = rw (isnt, found) refl

  claim_first-none :
      (e : Claim) (claims : List Claim)
      → fits e ≡ false
      → claim_first fits frame identity claims ≡ none
      → claim_first fits frame identity (e ∷ claims) ≡ none
  unfolding claim_first
  claim_first-none e claims isnt found = rw (isnt, found) refl

  pub claim_first-IsGranted :
      ((e : Claim) → fits e ≡ true → e.in_use ≡ false)
      → (claims : List Claim) (r : List Claim × ℕ) → IsDistinct ℕ_discrete (objects claims)
      → claim_first fits frame identity claims ≡ some r
      → IsGranted claims r.0 r.1
  claim_first-IsGranted free [] r d h = absurd (unfold claim_first in cc)
  claim_first-IsGranted free (e ∷ claims) r (new, d) h = elim (Bool-cases (fits e)) [
    | inl is ↦
        subst (λ (q : List Claim × ℕ). IsGranted (e ∷ claims) q.0 q.1)
          (some-injective (claimed e ∷ claims, e.object) r (sym (claim_first-head e claims is) ∙ h))
          (unfold claimed in head-IsGranted e claims frame identity (free e is) new)
    | inr isnt ↦ elim (Option-cases (claim_first fits frame identity claims)) [
      | inl nothing ↦ absurd (cc (claim_first-none e claims isnt nothing, h))
      | inr ((later, object), found) ↦
          subst (λ (q : List Claim × ℕ). IsGranted (e ∷ claims) q.0 q.1)
            (some-injective (e ∷ later, object) r
              (sym (claim_first-tail e claims later object isnt found) ∙ h))
            (tail-IsGranted e claims later object new
              (claim_first-IsGranted free claims (later, object) d found))
    ]
  ]

pub is_free_buffer-free :
    (size : ℕ) (usage : List BufferUsage) (e : Claim)
    → is_free_buffer size usage e ≡ true
    → e.in_use ≡ false
unfolding is_free_buffer
is_free_buffer-free size usage e h = ground arith

pub is_free_texture-free :
    (signature : TexSignature) (usage : List TextureUsage) (e : Claim)
    → is_free_texture signature usage e ≡ true
    → e.in_use ≡ false
unfolding is_free_texture
is_free_texture-free signature usage e h = ground arith
