-- ===== src/RenderGraph/TransientPool/Defs.antt =====
-- The entries and the operations of the pool.
use alpenite.Prelude.{
  ℕ, suc, Bool, true, false, not, ◌&&◌, ◌||◌, Option, none, some, List, [], ◌∷◌, ◌++◌, map, ◌==◌,
  leb, if◌then◌else◌, contains, ℕ_discrete,
}
use alpenite.RenderGraph.Access.{
  ResourceKind, texture, buffer, TextureUsage, transient_attachment, BufferUsage, is_buffer,
}
use alpenite.RenderGraph.Resources.{TexSignature, same_kind, sig_eq, dim_code}
use alpenite.RenderGraph.PersistentPool.Defs.{
  has_other, tex_code, buf_code, difference, increment, retain,
}

-- `object` is the texture or the buffer; an identity of 0 is null.
pub record Claim : Type 0 where
  pub kind : ResourceKind
  pub signature : TexSignature
  pub usage : List TextureUsage
  pub buffer_size : ℕ
  pub buf_usage : List BufferUsage
  pub object : ℕ
  pub in_use : Bool
  pub last_used_frame : ℕ
  pub created_frame : ℕ
  pub identity : ℕ

pub record TransientPool : Type 0 where
  pub claims : List Claim
  pub frame : ℕ
  pub created_this_frame : ℕ

-- The codes of `exact` that are in both lists or in neither.
unfoldable pub agrees_on : List ℕ → List ℕ → List ℕ → Bool
unfolding contains
agrees_on [] have want = true
agrees_on (x ∷ exact) have want =
    (if contains ℕ_discrete have x
      then contains ℕ_discrete want x
      else not (contains ℕ_discrete want x))
    && agrees_on exact have want

unfoldable pub transient_usage_satisfies : List ℕ → List ℕ → List ℕ → Bool
unfolding has_other agrees_on
transient_usage_satisfies have want exact = not (has_other want have) && agrees_on exact have want

unfoldable pub tex_satisfies : List TextureUsage → List TextureUsage → Bool
unfolding transient_usage_satisfies tex_code
tex_satisfies have want =
    transient_usage_satisfies (map tex_code have) (map tex_code want)
      (tex_code transient_attachment ∷ [])

unfoldable pub buf_satisfies : List BufferUsage → List BufferUsage → Bool
unfolding transient_usage_satisfies buf_code
buf_satisfies have want = transient_usage_satisfies (map buf_code have) (map buf_code want) []

unfoldable pub is_free_texture : TexSignature → List TextureUsage → Claim → Bool
unfolding is_buffer sig_eq tex_satisfies
is_free_texture signature usage e =
    not (is_buffer e.kind)
    && not e.in_use
    && sig_eq e.signature signature
    && tex_satisfies e.usage usage

unfoldable pub is_free_buffer : ℕ → List BufferUsage → Claim → Bool
unfolding is_buffer buf_satisfies
is_free_buffer size usage e =
    is_buffer e.kind && not e.in_use && (e.buffer_size == size) && buf_satisfies e.buf_usage usage

-- The first entry that fits is claimed: the entries, and its object.
unfoldable pub claim_first : (Claim → Bool) → ℕ → ℕ → List Claim → Option (List Claim × ℕ)
claim_first fits frame identity [] = none
claim_first fits frame identity (e ∷ claims) =
    let rest = claim_first fits frame identity claims in
    if fits e
    then some (
      record e { in_use = true; last_used_frame = frame; identity = identity } ∷ claims,
      e.object,
    )
    else elim rest [ none ↦ none | some (later, object) ↦ some (e ∷ later, object) ]

-- A claim in the pool, or else a new entry at its head.
unfoldable pub acquire_or : (Claim → Bool) → Claim → ℕ → TransientPool → TransientPool × ℕ
unfolding claim_first
acquire_or fits new identity pool = elim (claim_first fits pool.frame identity pool.claims) [
  | some (claims, object) ↦ (record pool { claims = claims }, object)
  | none ↦ (
    record pool { claims = new ∷ pool.claims; created_this_frame = suc pool.created_this_frame },
    new.object,
  )
]

unfoldable pub new_texture : ℕ → TexSignature → List TextureUsage → ℕ → ℕ → Claim
new_texture fresh signature usage identity frame = record {
  kind = texture;
  signature = signature;
  usage = usage;
  buffer_size = 0;
  buf_usage = [];
  object = fresh;
  in_use = true;
  last_used_frame = frame;
  created_frame = frame;
  identity = identity;
}

unfoldable pub new_buffer : ℕ → TexSignature → ℕ → List BufferUsage → ℕ → ℕ → Claim
new_buffer fresh blank size usage identity frame = record {
  kind = buffer;
  signature = blank;
  usage = [];
  buffer_size = size;
  buf_usage = usage;
  object = fresh;
  in_use = true;
  last_used_frame = frame;
  created_frame = frame;
  identity = identity;
}

unfoldable pub acquire_texture :
    ℕ → TexSignature → List TextureUsage → ℕ → TransientPool → TransientPool × ℕ
unfolding acquire_or is_free_texture new_texture
acquire_texture fresh signature usage identity pool =
    acquire_or (is_free_texture signature usage)
      (new_texture fresh signature usage identity pool.frame) identity pool

-- `blank` is the signature of a default-constructed entry.
unfoldable pub acquire_buffer :
    ℕ → TexSignature → ℕ → List BufferUsage → ℕ → TransientPool → TransientPool × ℕ
unfolding acquire_or is_free_buffer new_buffer
acquire_buffer fresh blank size usage identity pool =
    acquire_or (is_free_buffer size usage) (new_buffer fresh blank size usage identity pool.frame)
      identity pool

unfoldable pub release_claims : TransientPool → TransientPool
release_claims pool = record pool {
  claims = map (λ (e : Claim). record e { in_use = false }) pool.claims;
}

unfoldable pub is_resized : Claim → Claim → Bool
unfolding tex_satisfies buf_satisfies is_buffer dim_code
is_resized e s =
    if is_buffer e.kind
    then buf_satisfies s.buf_usage e.buf_usage && not (s.buffer_size == e.buffer_size)
    else tex_satisfies s.usage e.usage
      && (s.signature.format == e.signature.format)
      && (dim_code s.signature.dim == dim_code e.signature.dim)
      && (s.signature.mip_level_count == e.signature.mip_level_count)
      && (s.signature.sample_count == e.signature.sample_count)
      && not (
          (s.signature.size.width == e.signature.size.width)
          && (s.signature.size.height == e.signature.size.height)
          && (s.signature.size.depth_or_layers == e.signature.size.depth_or_layers))

unfoldable pub superseded_by : Claim → Claim → ℕ → Bool
unfolding same_kind is_resized
superseded_by e s frame =
    if not (same_kind e.kind s.kind)
    then false
    else if leb frame e.last_used_frame
    then false
    else if not (s.created_frame == frame)
    then false
    else if (e.identity == 0) || not (e.identity == s.identity)
    then false
    else is_resized e s

unfoldable pub superseded_in : Claim → ℕ → List Claim → Bool
unfolding superseded_by
superseded_in e frame [] = false
superseded_in e frame (s ∷ claims) = superseded_by e s frame || superseded_in e frame claims

-- The walk at the end of a frame, with the entries that it has kept so far.
unfoldable pub evict_claims : ℕ → ℕ → List Claim → List Claim → List Claim
unfolding superseded_in difference
evict_claims frame created kept [] = kept
evict_claims frame created kept (e ∷ claims) =
    evict_claims frame created
      (if (not (created == 0) && not e.in_use && superseded_in e frame (kept ++ e ∷ claims))
          || leb retain (difference frame e.last_used_frame)
        then kept
        else kept ++ e ∷ [])
      claims

unfoldable pub end_transient_frame : TransientPool → TransientPool
unfolding evict_claims increment
end_transient_frame pool = record {
  claims = evict_claims pool.frame pool.created_this_frame [] pool.claims;
  frame = increment pool.frame;
  created_this_frame = 0;
}
