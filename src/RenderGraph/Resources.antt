-- ===== src/RenderGraph/Resources.antt =====
-- The resources of a recorded graph: ResourceNode and TexSignature of RenderGraph_internal.h, with
-- resource_signature parts of RenderGraph.cpp. A texture format is the value of its enumerator in
-- webgpu.h. What compile() computes about a resource is kept apart, by resource id.
use alpenite.Prelude.{
  ℕ, zero, suc, ◌≡◌, refl, sym, arith, ap, ◌∙◌, Bool, true, false, ◌&&◌, ◌||◌, ◌==◌,
}
use alpenite.RenderGraph.Access.{ResourceHandle, ResourceKind, texture, buffer}
use alpenite.RenderGraph.Nodes.{TextureDimension, dim_undefined, dim_1d, dim_2d, dim_3d}

pub data SizeKind : Type 0 where
  absolute relative : SizeKind

pub record Extent : Type 0 where
  pub width : ℕ
  pub height : ℕ
  pub depth_or_layers : ℕ

-- The fields that recording a graph sets. The scale factors are those of a relative size.
pub record ResourceNode : Type 0 where
  pub handle : ResourceHandle
  pub name : ℕ
  pub kind : ResourceKind
  pub imported : Bool
  pub persistent : Bool
  pub history : Bool
  pub history_index : ℕ
  pub history_hash : ℕ
  pub dimension : TextureDimension
  pub format : ℕ
  pub size_kind : SizeKind
  pub relative_to : ResourceHandle
  pub width : ℕ
  pub height : ℕ
  pub depth_or_layers : ℕ
  pub mip_level_count : ℕ
  pub sample_count : ℕ
  pub buffer_size : ℕ

unfoldable pub is_external : ResourceNode → Bool
is_external r = r.imported || r.persistent

unfoldable pub same_kind : ResourceKind → ResourceKind → Bool
same_kind texture texture = true
same_kind buffer buffer = true
same_kind _ _ = false

pub same_kind→≡ : (a b : ResourceKind) → same_kind a b ≡ true → a ≡ b
unfolding same_kind
same_kind→≡ texture texture h = refl
same_kind→≡ texture buffer h = absurd (cc)
same_kind→≡ buffer texture h = absurd (cc)
same_kind→≡ buffer buffer h = refl

pub same_kind_refl : (a : ResourceKind) → same_kind a a ≡ true
unfolding same_kind
same_kind_refl texture = refl
same_kind_refl buffer = refl

unfoldable pub is_dim_2d : TextureDimension → Bool
is_dim_2d dim_2d = true
is_dim_2d _ = false

-- `depthOrLayers` counts layers of a 2d texture only.
unfoldable pub node_layers : ResourceNode → ℕ
unfolding is_dim_2d
node_layers r = elim (is_dim_2d r.dimension) [ true ↦ r.depth_or_layers | false ↦ 1 ]

unfoldable pub dim_code : TextureDimension → ℕ
dim_code dim_undefined = 0
dim_code dim_1d = 1
dim_code dim_2d = 2
dim_code dim_3d = 3

pub record TexSignature : Type 0 where
  pub size : Extent
  pub format : ℕ
  pub dim : TextureDimension
  pub mip_level_count : ℕ
  pub sample_count : ℕ

-- `operator==`, with `extent_eq`.
unfoldable pub sig_eq : TexSignature → TexSignature → Bool
unfolding dim_code
sig_eq a b =
    (a.size.width == b.size.width)
    && (a.size.height == b.size.height)
    && (a.size.depth_or_layers == b.size.depth_or_layers)
    && (a.format == b.format)
    && (dim_code a.dim == dim_code b.dim)
    && (a.mip_level_count == b.mip_level_count)
    && (a.sample_count == b.sample_count)

unfoldable pub tex_signature : ResourceNode → Extent → TexSignature
tex_signature r resolved = record {
  size = resolved;
  format = r.format;
  dim = r.dimension;
  mip_level_count = r.mip_level_count;
  sample_count = r.sample_count;
}

dim_of : ℕ → TextureDimension
dim_of zero = dim_undefined
dim_of (suc zero) = dim_1d
dim_of (suc (suc zero)) = dim_2d
dim_of (suc (suc (suc n))) = dim_3d

dim_of-dim_code : (a : TextureDimension) → dim_of (dim_code a) ≡ a
unfolding dim_of dim_code
dim_of-dim_code dim_undefined = refl
dim_of-dim_code dim_1d = refl
dim_of-dim_code dim_2d = refl
dim_of-dim_code dim_3d = refl

pub sig_eq→≡ : (a b : TexSignature) → sig_eq a b ≡ true → a ≡ b
unfolding sig_eq
sig_eq→≡ a b h =
    let dims : a.dim ≡ b.dim =
      sym (dim_of-dim_code a.dim) ∙ ap dim_of (ground arith) ∙ dim_of-dim_code b.dim in
    let w : a.size.width ≡ b.size.width = ground arith in
    let t : a.size.height ≡ b.size.height = ground arith in
    let d : a.size.depth_or_layers ≡ b.size.depth_or_layers = ground arith in
    let f : a.format ≡ b.format = ground arith in
    let m : a.mip_level_count ≡ b.mip_level_count = ground arith in
    let c : a.sample_count ≡ b.sample_count = ground arith in cc

pub sig_eq_refl : (a : TexSignature) → sig_eq a a ≡ true
unfolding sig_eq
sig_eq_refl a = ground arith
