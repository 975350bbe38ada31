-- ===== src/RenderGraph/Checks/Shapes.antt =====
-- What attachments of a render pass have to be, one by one and in pairs, and that the checks of
-- validate_render_passes on them establish it.
use Prim.Native.Nat.{max}
use alpenite.Prelude.{
  ℕ, ◌/◌, ◌^◌, ◌<◌, ◌≡◌, ◌≢◌, ◌⊎◌, sym, subst, arith, some, List, [], ◌∷◌, ◌++◌, All, append-empty,
}
use alpenite.RenderGraph.Access.{
  ResourceAccess, depth_stencil_attachment, load_undefined, store_undefined,
}
use alpenite.RenderGraph.Nodes.{dim_3d}
use alpenite.RenderGraph.Checks.Attachments.{
  FormatName, depth16_unorm, depth24_plus, depth24_plus_stencil8, depth32_float,
  depth32_float_stencil8, Attachment, check_against, check_all_against, depth_errors, find_source,
  source_errors, flat_error, resolve_pair_errors, resolve_errors,
}

-- The length of a side of an attachment, which is one mip of its texture.
abbrev pub side : ℕ → Attachment → ℕ
side length t = max 1 (length / 2 ^ t.access.base_mip)

-- Two attachments of one size, at their mips.
abbrev pub IsSameSize : Attachment → Attachment → Type 0
IsSameSize t u =
    (side t.size.width t ≡ side u.size.width u) × (side t.size.height t ≡ side u.size.height u)

-- Two attachments of one size and one sample count.
abbrev pub IsAlike : Attachment → Attachment → Type 0
IsAlike t u = IsSameSize t u × (t.node.sample_count ≡ u.node.sample_count)

check_against_lem : (p : ℕ) (ref t : Attachment) → check_against p ref t ≡ [] → IsAlike t ref
unfolding check_against
check_against_lem p ref t h = ground arith

pub check_all_lem :
    (p : ℕ) (ref : Attachment) (ts : List Attachment)
    → check_all_against p ref ts ≡ []
    → All (λ t. IsAlike t ref) ts
unfolding check_all_against
check_all_lem p ref [] h = tt
check_all_lem p ref (t ∷ ts) h =
    let (here, later) = append-empty (check_against p ref t) _ h in
    (check_against_lem p ref t here, check_all_lem p ref ts later)

abbrev pub IsDepthFormat : FormatName → Type 0
IsDepthFormat f =
    (f ≡ depth16_unorm)
    ⊎ ((f ≡ depth24_plus)
        ⊎ ((f ≡ depth24_plus_stencil8) ⊎ ((f ≡ depth32_float) ⊎ (f ≡ depth32_float_stencil8))))

-- The depth formats with a stencil.
abbrev pub HasStencil : FormatName → Type 0
HasStencil f = (f ≡ depth24_plus_stencil8) ⊎ (f ≡ depth32_float_stencil8)

abbrev pub HasStencilOp : ResourceAccess → Type 0
HasStencilOp a = (a.stencil_load_op ≢ load_undefined) ⊎ (a.stencil_store_op ≢ store_undefined)

-- A depth attachment: its format, and stencil operations where it has a stencil, and only there.
pub record IsDepth (formats : ℕ → FormatName) (t : Attachment) : Type 0 where
  pub deep : IsDepthFormat (formats t.node.format)
  pub ops_used : HasStencilOp t.access → HasStencil (formats t.node.format)
  pub ops_there :
      HasStencil (formats t.node.format)
      → t.access.type ≡ depth_stencil_attachment
      → HasStencilOp t.access

pub depth_lem :
    (formats : ℕ → FormatName) (p : ℕ) (t : Attachment)
    → depth_errors formats p t ≡ []
    → IsDepth formats t
unfolding depth_errors
depth_lem formats p t h = ground arith

-- A resolve target and its source.
pub record IsResolved (src t : Attachment) : Type 0 where
  pub multisampled : 1 < src.node.sample_count
  pub single : t.node.sample_count ≡ 1
  pub same_format : t.node.format ≡ src.node.format
  pub same_size : IsSameSize t src

resolve_pair_lem :
    (p : ℕ) (src t : Attachment) → resolve_pair_errors p src t ≡ [] → IsResolved src t
unfolding resolve_pair_errors
resolve_pair_lem p src t h = ground arith

-- The source of a resolve target is the first color attachment of its slot.
abbrev pub IsResolve : List Attachment → Attachment → Type 0
IsResolve color t =
    (before : List Attachment) (src : Attachment) (after : List Attachment)
    → color ≡ before ++ src ∷ after
    → All (λ c. c.access.color_index ≢ t.access.color_index) before
    → src.access.color_index ≡ t.access.color_index
    → IsResolved src t

find_source_first :
    (before : List Attachment) (src : Attachment) (after : List Attachment) (slot : ℕ)
    → All (λ c. c.access.color_index ≢ slot) before
    → src.access.color_index ≡ slot
    → find_source (before ++ src ∷ after) slot ≡ some src
unfolding find_source
find_source_first [] src after slot apart same = ground arith
find_source_first (c ∷ before) src after slot apart same =
    ground (arith, find_source_first before src after slot apart.1 same, apart.0)

pub resolve_lem :
    (p : ℕ) (color ts : List Attachment) → resolve_errors p color ts ≡ [] → All (IsResolve color) ts
unfolding resolve_errors source_errors
resolve_lem p color [] h = tt
resolve_lem p color (t ∷ ts) h =
    let (here, later) =
      append-empty (source_errors p (find_source color t.access.color_index) t) _ h in
    (
      λ before src after split apart same.
          let found =
            subst (λ l. find_source l t.access.color_index ≡ some src) (sym split)
              (find_source_first before src after t.access.color_index apart same) in
          resolve_pair_lem p src t (subst (λ o. source_errors p o t ≡ []) found here),
      resolve_lem p color ts later,
    )

-- No 3d texture.
abbrev pub IsFlat : Attachment → Type 0
IsFlat t = t.node.dimension ≢ dim_3d

pub flat_lem : (p : ℕ) (t : Attachment) → flat_error p t ≡ [] → IsFlat t
unfolding flat_error
flat_lem p t h = ground arith
