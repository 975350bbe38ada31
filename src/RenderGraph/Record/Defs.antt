-- ===== src/RenderGraph/Record/Defs.antt =====
-- use() and what the calls of PassBuilder are made of. Q_ASSERT ends a debug build and does nothing in
-- a release build: a failed one is `none` where the assertions are on, and the code goes on where they
-- are off. The widths of the fields of an access cut what they take.
use alpenite.Prelude.{
  ℕ, ◌%◌, ◌^◌, Bool, true, false, not, ◌&&◌, ◌||◌, Option, none, some, List, [], ◌∷◌, ◌++◌, ltb,
  ◌==◌, if◌then◌else◌,
}
use alpenite.RenderGraph.Access.{
  ResourceKind, ResourceHandle, ResourceAccess, AccessType, color_attachment,
  depth_stencil_attachment, depth_stencil_read_only, resolve_attachment, sampled, storage_read,
  storage_write, uniform, copy_src, copy_dst, vertex, index, indirect, LoadOp, load_undefined,
  StoreOp, store_undefined, Aspect, aspect_all, ViewDimension, view_undefined, Part, is_buffer,
  in_pass_accesses_conflict,
}
use alpenite.RenderGraph.Nodes.{PassNode, PassKind, graphics, transfer}
use alpenite.RenderGraph.Resources.{ResourceNode}

-- The graph that a pass is recorded in, and whether assertions are on. `nodes` is what find_node finds.
pub record Graph : Type 0 where
  pub asserts : Bool
  pub next_resource_id : ℕ
  pub generation : ℕ
  pub nodes : ℕ → Option ResourceNode

unfoldable pub q_assert {ℓ} : {A : Type ℓ} → Graph → Bool → Option A → Option A
q_assert g true rest = rest
q_assert g false rest = if g.asserts then none else rest

unfoldable pub access_allows_kind : AccessType → ResourceKind → Bool
unfolding is_buffer
access_allows_kind color_attachment k = not (is_buffer k)
access_allows_kind depth_stencil_attachment k = not (is_buffer k)
access_allows_kind depth_stencil_read_only k = not (is_buffer k)
access_allows_kind resolve_attachment k = not (is_buffer k)
access_allows_kind sampled k = not (is_buffer k)
access_allows_kind uniform k = is_buffer k
access_allows_kind vertex k = is_buffer k
access_allows_kind index k = is_buffer k
access_allows_kind indirect k = is_buffer k
access_allows_kind storage_read k = true
access_allows_kind storage_write k = true
access_allows_kind copy_src k = true
access_allows_kind copy_dst k = true

pub record Subresource : Type 0 where
  pub mip : ℕ
  pub layer : ℕ

pub record ViewRange : Type 0 where
  pub base_mip : ℕ
  pub mip_count : ℕ
  pub base_layer : ℕ
  pub layer_count : ℕ
  pub dim : ViewDimension
  pub aspect : Aspect

abbrev pub one_view : ViewRange
one_view = record {
  base_mip = 0;
  mip_count = 1;
  base_layer = 0;
  layer_count = 1;
  dim = view_undefined;
  aspect = aspect_all;
}

pub record Ops : Type 0 where
  pub load : LoadOp
  pub store : StoreOp
  pub stencil_load : LoadOp
  pub stencil_store : StoreOp

abbrev pub no_ops : Ops
no_ops = record {
  load = load_undefined;
  store = store_undefined;
  stencil_load = load_undefined;
  stencil_store = store_undefined;
}

-- The arguments of use().
pub record Use : Type 0 where
  pub handle : ResourceHandle
  pub type : AccessType
  pub ops : Ops
  pub sub : Subresource
  pub range : ViewRange

unfoldable pub is_transfer : PassKind → Bool
is_transfer transfer = true
is_transfer _ = false

unfoldable pub is_graphics_pass : PassKind → Bool
is_graphics_pass graphics = true
is_graphics_pass _ = false

-- What the conflict test reads of a new and of a recorded access.
unfoldable pub part_of_use : Use → Part
part_of_use u = record {
  type = u.type;
  base_mip = u.sub.mip;
  mip_count = u.range.mip_count;
  base_layer = u.sub.layer;
  layer_count = u.range.layer_count;
  aspect = u.range.aspect;
}

unfoldable pub part_of : ResourceAccess → Part
part_of a = record {
  type = a.type;
  base_mip = a.base_mip;
  mip_count = a.mip_count;
  base_layer = a.base_layer;
  layer_count = a.layer_count;
  aspect = a.view_aspect;
}

unfoldable pub conflicts : Use → ResourceAccess → Bool
unfolding part_of_use part_of in_pass_accesses_conflict
conflicts u a =
    (a.handle.id == u.handle.id) && in_pass_accesses_conflict (part_of_use u) (part_of a)

unfoldable pub any_conflict : Use → List ResourceAccess → Bool
unfolding conflicts
any_conflict u [] = false
any_conflict u (a ∷ accesses) = conflicts u a || any_conflict u accesses

unfoldable pub access_of : Use → ResourceAccess
access_of u = record {
  handle = u.handle;
  buf_offset = 0;
  buf_size = 0;
  load_op = u.ops.load;
  store_op = u.ops.store;
  stencil_load_op = u.ops.stencil_load;
  stencil_store_op = u.ops.stencil_store;
  view_dim = u.range.dim;
  view_aspect = u.range.aspect;
  base_layer = u.sub.layer % 2 ^ 16;
  layer_count = u.range.layer_count % 2 ^ 16;
  type = u.type;
  color_index = 0;
  buf_full_define = false;
  base_mip = u.sub.mip % 2 ^ 8;
  mip_count = u.range.mip_count % 2 ^ 8;
}

-- What use() sets on the access it appended, by the calls that fill in more of it.
abbrev pub Finish : Type 0
Finish = ResourceAccess → ResourceAccess

unfoldable pub append_access : ResourceAccess → PassNode → PassNode
append_access a p = record p { accesses = p.accesses ++ a ∷ [] }

unfoldable pub is_current_handle : Graph → ResourceHandle → Bool
is_current_handle g h =
    not (h.id == 0) && ltb h.id g.next_resource_id && (h.generation == g.generation)

-- use(), and what its caller then changes of the access that it appended.
unfoldable pub use_then : Graph → PassNode → Use → Finish → Option PassNode
unfolding q_assert is_current_handle access_allows_kind is_transfer any_conflict append_access
    access_of
use_then g p u finish = q_assert g (is_current_handle g u.handle) (
    q_assert g (access_allows_kind u.type u.handle.kind) (
      q_assert g (is_transfer p.kind || not (any_conflict u p.accesses))
        (some (append_access (finish (access_of u)) p))))

abbrev pub as_is : Finish
as_is a = a
