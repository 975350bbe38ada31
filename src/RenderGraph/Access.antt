-- ===== src/RenderGraph/Access.antt =====
-- The accesses that a pass declares: AccessType of RenderGraph_internal.h, and what
-- RenderGraph.cpp derives from it. The usage flags of webgpu.h are data, and a usage is a list of
-- them read as a set, so that `|=` adds flags.
pub mod Overlap
use alpenite.Prelude.{
  ℕ, ◌+◌, ◌-◌, ◌%◌, ◌^◌, Bool, true, false, not, ◌&&◌, List, [], ◌∷◌, ltb, ◌==◌, if◌then◌else◌,
}

pub data ResourceKind : Type 0 where
  texture buffer : ResourceKind

pub data AccessType : Type 0 where
  color_attachment depth_stencil_attachment depth_stencil_read_only resolve_attachment sampled
        storage_read storage_write uniform copy_src copy_dst vertex index indirect :
      AccessType

pub data TextureUsage : Type 0 where
  tex_copy_src tex_copy_dst texture_binding storage_binding render_attachment transient_attachment :
      TextureUsage

pub data BufferUsage : Type 0 where
  buf_copy_src buf_copy_dst buf_index buf_vertex buf_uniform buf_storage buf_indirect : BufferUsage

pub data DefineMode : Type 0 where
  never if_clear_load_op always copy_define : DefineMode

pub data LoadOp : Type 0 where
  load_undefined load_load load_clear : LoadOp

pub data StoreOp : Type 0 where
  store_undefined store_store store_discard : StoreOp

pub data Aspect : Type 0 where
  aspect_all stencil_only depth_only : Aspect

pub data ViewDimension : Type 0 where
  view_undefined view_1d view_2d view_2d_array view_cube view_cube_array view_3d : ViewDimension

pub record AccessSemantics : Type 0 where
  pub is_write : Bool
  pub define : DefineMode
  pub tex_usage : List TextureUsage
  pub buf_usage : List BufferUsage

abbrev semantics : Bool → DefineMode → List TextureUsage → List BufferUsage → AccessSemantics
semantics w d t b = record { is_write = w; define = d; tex_usage = t; buf_usage = b }

unfoldable pub access_semantics : AccessType → AccessSemantics
access_semantics color_attachment = semantics true if_clear_load_op (render_attachment ∷ []) []
access_semantics depth_stencil_attachment =
    semantics true if_clear_load_op (render_attachment ∷ []) []
access_semantics depth_stencil_read_only = semantics false never (render_attachment ∷ []) []
access_semantics resolve_attachment = semantics true never (render_attachment ∷ []) []
access_semantics sampled = semantics false never (texture_binding ∷ []) []
access_semantics storage_read = semantics false never (storage_binding ∷ []) (buf_storage ∷ [])
access_semantics storage_write = semantics true always (storage_binding ∷ []) (buf_storage ∷ [])
access_semantics uniform = semantics false never [] (buf_uniform ∷ buf_copy_dst ∷ [])
access_semantics copy_src = semantics false never (tex_copy_src ∷ []) (buf_copy_src ∷ [])
access_semantics copy_dst = semantics true copy_define (tex_copy_dst ∷ []) (buf_copy_dst ∷ [])
access_semantics vertex = semantics false never [] (buf_vertex ∷ [])
access_semantics index = semantics false never [] (buf_index ∷ [])
access_semantics indirect = semantics false never [] (buf_indirect ∷ [])

unfoldable pub access_is_write : AccessType → Bool
unfolding access_semantics
access_is_write t = (access_semantics t).is_write

-- A handle names a resource of one graph by its id; 0 is no resource.
pub record ResourceHandle : Type 0 where
  pub id : ℕ
  pub kind : ResourceKind
  pub generation : ℕ

-- The clear values, which compile() does not read, are left out.
pub record ResourceAccess : Type 0 where
  pub handle : ResourceHandle
  pub buf_offset : ℕ
  pub buf_size : ℕ
  pub load_op : LoadOp
  pub store_op : StoreOp
  pub stencil_load_op : LoadOp
  pub stencil_store_op : StoreOp
  pub view_dim : ViewDimension
  pub view_aspect : Aspect
  pub base_layer : ℕ
  pub layer_count : ℕ
  pub type : AccessType
  pub color_index : ℕ
  pub buf_full_define : Bool
  pub base_mip : ℕ
  pub mip_count : ℕ

unfoldable pub is_clear : LoadOp → Bool
is_clear load_clear = true
is_clear load_load = false
is_clear load_undefined = false

unfoldable pub is_buffer : ResourceKind → Bool
is_buffer buffer = true
is_buffer texture = false

-- Does the access overwrite all that the resource held before?
unfoldable pub access_defines : ResourceAccess → Bool
unfolding access_semantics is_clear is_buffer
access_defines a = elim (access_semantics a.type).define [
  | never ↦ false
  | if_clear_load_op ↦ is_clear a.load_op
  | always ↦ true
  | copy_define ↦ is_buffer a.handle.kind && a.buf_full_define
]

-- `UINT32_MAX`, the end of a range whose count is 0.
abbrev pub uint32_max : ℕ
uint32_max = 2 ^ 32 - 1

-- The sum wraps as uint32_t does.
unfoldable pub range_end : ℕ → ℕ → ℕ
range_end base count = if count == 0 then uint32_max else (base + count) % 2 ^ 32

unfoldable pub ranges_overlap : ℕ → ℕ → ℕ → ℕ → Bool
unfolding range_end
ranges_overlap a_base a_count b_base b_count =
    ltb a_base (range_end b_base b_count) && ltb b_base (range_end a_base a_count)

unfoldable pub aspects_overlap : Aspect → Aspect → Bool
aspects_overlap aspect_all b = true
aspects_overlap a aspect_all = true
aspects_overlap stencil_only stencil_only = true
aspects_overlap depth_only depth_only = true
aspects_overlap _ _ = false

-- A storage read and a storage write in one pass: a read_write binding.
unfoldable pub is_storage_pair : AccessType → AccessType → Bool
is_storage_pair storage_read storage_write = true
is_storage_pair storage_write storage_read = true
is_storage_pair _ _ = false

-- What one access covers of a resource.
pub record Part : Type 0 where
  pub type : AccessType
  pub base_mip : ℕ
  pub mip_count : ℕ
  pub base_layer : ℕ
  pub layer_count : ℕ
  pub aspect : Aspect

unfoldable pub in_pass_accesses_conflict : Part → Part → Bool
unfolding ranges_overlap aspects_overlap access_is_write is_storage_pair
in_pass_accesses_conflict a b =
    if not (ranges_overlap a.base_mip a.mip_count b.base_mip b.mip_count)
    then false
    else if not (ranges_overlap a.base_layer a.layer_count b.base_layer b.layer_count)
    then false
    else if not (aspects_overlap a.aspect b.aspect)
    then false
    else if not (access_is_write a.type) && not (access_is_write b.type)
    then false
    else if is_storage_pair a.type b.type
    then false
    else true
