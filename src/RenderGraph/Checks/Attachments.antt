-- ===== src/RenderGraph/Checks/Attachments.antt =====
-- validate_render_passes: the attachments of a render pass as execute() will bind them. A format is
-- the value of its enumerator in webgpu.h; `formats` tells the formats that the code names.
use alpenite.Prelude.{
  ℕ, ◌/◌, ◌^◌, Bool, true, false, not, ◌&&◌, ◌||◌, Option, none, some, List, [], ◌∷◌, ◌++◌, length,
  ltb, leb, ◌==◌, if◌then◌else◌,
}
use alpenite.RenderGraph.Access.{
  ResourceAccess, AccessType, color_attachment, resolve_attachment, depth_stencil_attachment,
  depth_stencil_read_only, LoadOp, load_undefined, StoreOp, store_undefined,
}
use alpenite.RenderGraph.Nodes.{PassNode, PassKind, graphics, TextureDimension, dim_3d}
use alpenite.RenderGraph.Resources.{ResourceNode, Extent}
use alpenite.RenderGraph.Checks.Ranges.{error_if}

pub data FormatName : Type 0 where
  depth16_unorm depth24_plus depth24_plus_stencil8 depth32_float depth32_float_stencil8 stencil8
        other_format :
      FormatName

unfoldable pub is_depth_format : FormatName → Bool
is_depth_format depth16_unorm = true
is_depth_format depth24_plus = true
is_depth_format depth24_plus_stencil8 = true
is_depth_format depth32_float = true
is_depth_format depth32_float_stencil8 = true
is_depth_format _ = false

unfoldable pub format_has_stencil : FormatName → Bool
format_has_stencil stencil8 = true
format_has_stencil depth24_plus_stencil8 = true
format_has_stencil depth32_float_stencil8 = true
format_has_stencil _ = false

-- A shift by more than 31 bits is not defined in the source.
unfoldable pub mip_dim : ℕ → ℕ → ℕ
mip_dim v mip = if v / 2 ^ mip == 0 then 1 else v / 2 ^ mip

pub data AttachmentError : Type 0 where
  target_is_3d other_size other_samples not_depth stencil_ops_unused stencil_ops_missing
        source_not_multisampled target_multisampled other_format_than_source
        other_size_than_source :
      ℕ → ℕ → AttachmentError
  no_attachments : ℕ → AttachmentError

-- `Att`, with the resolved size of the resource.
pub record Attachment : Type 0 where
  pub access : ResourceAccess
  pub node : ResourceNode
  pub size : Extent

unfoldable pub att_w : Attachment → ℕ
unfolding mip_dim
att_w t = mip_dim t.size.width t.access.base_mip

unfoldable pub att_h : Attachment → ℕ
unfolding mip_dim
att_h t = mip_dim t.size.height t.access.base_mip

pub record Attachments : Type 0 where
  pub color : List Attachment
  pub resolve : List Attachment
  pub depth : Option Attachment

pub data Role : Type 0 where
  no_role color_role resolve_role depth_role : Role

unfoldable pub role : AccessType → Role
role color_attachment = color_role
role resolve_attachment = resolve_role
role depth_stencil_attachment = depth_role
role depth_stencil_read_only = depth_role
role _ = no_role

abbrev pub max_color_attachments : ℕ
max_color_attachments = 8

-- One access; `none` is the `continue` for what is no attachment or finds no place.
unfoldable pub attach : Role → Attachment → Attachments → Option Attachments
attach no_role t s = none
attach color_role t s =
    if ltb (length s.color) max_color_attachments
    then some (record s { color = s.color ++ t ∷ [] })
    else none
attach resolve_role t s =
    if ltb (length s.resolve) max_color_attachments
    then some (record s { resolve = s.resolve ++ t ∷ [] })
    else none
attach depth_role t s = some (record s { depth = some t })

unfoldable pub is_dim_3d : TextureDimension → Bool
is_dim_3d dim_3d = true
is_dim_3d _ = false

unfoldable pub attachment_of : (ℕ → ResourceNode) → (ℕ → Extent) → ResourceAccess → Attachment
attachment_of by_id resolved a = record {
  access = a;
  node = by_id a.handle.id;
  size = resolved a.handle.id;
}

-- The attachments of a pass in their order, and the errors on the way.
unfoldable pub flat_error : ℕ → Attachment → List AttachmentError
unfolding is_dim_3d
flat_error p t = error_if (is_dim_3d t.node.dimension) (target_is_3d p t.node.handle.id)

unfoldable pub collect :
    (ℕ → ResourceNode)
    → (ℕ → Extent)
    → ℕ
    → List ResourceAccess
    → Attachments
    → Attachments × List AttachmentError
unfolding attachment_of attach role flat_error
collect by_id resolved p [] s = (s, [])
collect by_id resolved p (a ∷ accesses) s =
    let t = attachment_of by_id resolved a in
    elim (attach (role a.type) t s) [
      | none ↦ collect by_id resolved p accesses s
      | some s' ↦
          let rest = collect by_id resolved p accesses s' in (rest.0, flat_error p t ++ rest.1)
    ]

unfoldable pub check_against : ℕ → Attachment → Attachment → List AttachmentError
unfolding att_w att_h
check_against p ref t =
    error_if (not (att_w t == att_w ref) || not (att_h t == att_h ref))
      (other_size p t.node.handle.id)
    ++ error_if (not (t.node.sample_count == ref.node.sample_count))
        (other_samples p t.node.handle.id)

unfoldable pub check_all_against : ℕ → Attachment → List Attachment → List AttachmentError
unfolding check_against
check_all_against p ref [] = []
check_all_against p ref (t ∷ ts) = check_against p ref t ++ check_all_against p ref ts

unfoldable pub is_undefined_load : LoadOp → Bool
is_undefined_load load_undefined = true
is_undefined_load _ = false

unfoldable pub is_undefined_store : StoreOp → Bool
is_undefined_store store_undefined = true
is_undefined_store _ = false

unfoldable pub is_writable_depth : AccessType → Bool
is_writable_depth depth_stencil_attachment = true
is_writable_depth _ = false

unfoldable pub has_stencil_ops : ResourceAccess → Bool
unfolding is_undefined_load is_undefined_store
has_stencil_ops a =
    not (is_undefined_load a.stencil_load_op) || not (is_undefined_store a.stencil_store_op)

unfoldable pub depth_errors : (ℕ → FormatName) → ℕ → Attachment → List AttachmentError
unfolding is_depth_format format_has_stencil has_stencil_ops is_writable_depth
depth_errors formats p t =
    if not (is_depth_format (formats t.node.format))
    then not_depth p t.node.handle.id ∷ []
    else error_if (has_stencil_ops t.access && not (format_has_stencil (formats t.node.format)))
        (stencil_ops_unused p t.node.handle.id)
      ++ error_if
          (not (has_stencil_ops t.access)
            && format_has_stencil (formats t.node.format)
            && is_writable_depth t.access.type)
          (stencil_ops_missing p t.node.handle.id)

-- The first color attachment of a slot.
unfoldable pub find_source : List Attachment → ℕ → Option Attachment
find_source [] color_index = none
find_source (c ∷ color) color_index =
    let rest = find_source color color_index in
    if c.access.color_index == color_index then some c else rest

unfoldable pub resolve_pair_errors : ℕ → Attachment → Attachment → List AttachmentError
unfolding att_w att_h
resolve_pair_errors p src t =
    error_if (leb src.node.sample_count 1) (source_not_multisampled p t.node.handle.id)
    ++ error_if (not (t.node.sample_count == 1)) (target_multisampled p t.node.handle.id)
    ++ error_if (not (t.node.format == src.node.format))
        (other_format_than_source p t.node.handle.id)
    ++ error_if (not (att_w t == att_w src) || not (att_h t == att_h src))
        (other_size_than_source p t.node.handle.id)

-- resolve() rejects a source that is not an attachment of the pass.
unfoldable pub source_errors : ℕ → Option Attachment → Attachment → List AttachmentError
unfolding resolve_pair_errors
source_errors p none t = []
source_errors p (some src) t = resolve_pair_errors p src t

unfoldable pub resolve_errors : ℕ → List Attachment → List Attachment → List AttachmentError
unfolding find_source source_errors
resolve_errors p color [] = []
resolve_errors p color (t ∷ ts) =
    source_errors p (find_source color t.access.color_index) t ++ resolve_errors p color ts

-- `ref`: the first color attachment, or else the depth attachment.
unfoldable pub reference : Attachments → Option Attachment
reference s = elim s.color [ [] ↦ s.depth | c ∷ color ↦ some c ]

abbrev pub to_list {ℓ} : {A : Type ℓ} → Option A → List A
to_list none = []
to_list (some a) = a ∷ []

unfoldable pub depths_errors : (ℕ → FormatName) → ℕ → Option Attachment → List AttachmentError
unfolding depth_errors
depths_errors formats p none = []
depths_errors formats p (some t) = depth_errors formats p t

-- The checks on the attachments of one pass; without a reference there is none of them.
unfoldable pub attachment_errors : (ℕ → FormatName) → ℕ → Attachments → List AttachmentError
unfolding reference check_all_against depths_errors resolve_errors
attachment_errors formats p s = elim (reference s) [
  | none ↦ no_attachments p ∷ []
  | some ref ↦
      check_all_against p ref s.color
      ++ check_all_against p ref (to_list s.depth)
      ++ depths_errors formats p s.depth
      ++ resolve_errors p s.color s.resolve
]

abbrev pub no_attachment : Attachments
no_attachment = record { color = []; resolve = []; depth = none }

unfoldable pub render_pass_errors :
    (ℕ → FormatName) → (ℕ → ResourceNode) → (ℕ → Extent) → PassNode → List AttachmentError
unfolding collect attachment_errors
render_pass_errors formats by_id resolved p =
    let collected = collect by_id resolved p.index p.accesses no_attachment in
    collected.1 ++ attachment_errors formats p.index collected.0

unfoldable pub is_graphics : PassKind → Bool
is_graphics graphics = true
is_graphics _ = false

unfoldable pub validate_render_passes :
    (ℕ → FormatName) → (ℕ → ResourceNode) → (ℕ → Extent) → List PassNode → List AttachmentError
unfolding is_graphics render_pass_errors
validate_render_passes formats by_id resolved [] = []
validate_render_passes formats by_id resolved (p ∷ passes) =
    let rest = validate_render_passes formats by_id resolved passes in
    if is_graphics p.kind then render_pass_errors formats by_id resolved p ++ rest else rest
