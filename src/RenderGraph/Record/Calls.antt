-- ===== src/RenderGraph/Record/Calls.antt =====
-- The calls of PassBuilder, each a function from a pass to the pass with what the call recorded.
use alpenite.Prelude.{
  ℕ, ◌-◌, ◌%◌, ◌^◌, Bool, true, false, not, ◌&&◌, ◌||◌, Option, none, some, List, [], ◌∷◌, ◌++◌,
  length, ltb, leb, ◌==◌, if◌then◌else◌,
}
use alpenite.RenderGraph.Access.{
  ResourceHandle, ResourceAccess, AccessType, color_attachment, depth_stencil_attachment,
  depth_stencil_read_only, resolve_attachment, storage_read, storage_write, copy_src, copy_dst,
}
use alpenite.RenderGraph.Nodes.{PassNode, InitTarget}
use alpenite.RenderGraph.Resources.{ResourceNode}
use alpenite.RenderGraph.Record.Defs.{
  Graph, q_assert, Subresource, ViewRange, one_view, Ops, no_ops, Use, is_transfer,
  is_graphics_pass, use_then, Finish, as_is,
}

infixl 5 ◌>>=◌
abbrev pub ◌>>=◌ : Option PassNode → (PassNode → Option PassNode) → Option PassNode
none >>= f = none
some p >>= f = f p

unfoldable pub is_color : AccessType → Bool
is_color color_attachment = true
is_color _ = false

unfoldable pub is_resolve : AccessType → Bool
is_resolve resolve_attachment = true
is_resolve _ = false

unfoldable pub is_depth : AccessType → Bool
is_depth depth_stencil_attachment = true
is_depth depth_stencil_read_only = true
is_depth _ = false

unfoldable pub has_slot : (AccessType → Bool) → ℕ → List ResourceAccess → Bool
has_slot wanted slot [] = false
has_slot wanted slot (a ∷ accesses) =
    (wanted a.type && (a.color_index == slot)) || has_slot wanted slot accesses

-- The color slot of the first color attachment of a resource.
unfoldable pub slot_of : ℕ → List ResourceAccess → Option ℕ
unfolding is_color
slot_of id [] = none
slot_of id (a ∷ accesses) =
    let rest = slot_of id accesses in
    if is_color a.type && (a.handle.id == id) then some a.color_index else rest

unfoldable pub with_slot : ℕ → Finish
with_slot slot a = record a { color_index = slot % 2 ^ 8 }

abbrev pub attachment_use : AccessType → ResourceHandle → Ops → Subresource → Use
attachment_use t h ops sub = record { handle = h; type = t; ops = ops; sub = sub; range = one_view }

unfoldable pub color : Graph → PassNode → ResourceHandle → ℕ → Ops → Subresource → Option PassNode
unfolding q_assert is_graphics_pass has_slot is_color with_slot use_then
color g p h slot ops sub = q_assert g (not (h.id == 0) && is_graphics_pass p.kind) (
    if leb 8 slot
    then q_assert g false (some p)
    else if has_slot is_color slot p.accesses
    then q_assert g false (some p)
    else use_then g p (attachment_use color_attachment h ops sub) (with_slot slot))

unfoldable pub resolve_into : Graph → PassNode → ResourceHandle → Subresource → ℕ → Option PassNode
unfolding q_assert has_slot is_resolve with_slot use_then
resolve_into g p target sub slot =
    if has_slot is_resolve slot p.accesses
    then q_assert g false (some p)
    else use_then g p (attachment_use resolve_attachment target no_ops sub) (with_slot slot)

unfoldable pub resolve :
    Graph → PassNode → ResourceHandle → ResourceHandle → Subresource → Option PassNode
unfolding q_assert is_graphics_pass slot_of resolve_into
resolve g p src target sub =
    q_assert g (not (src.id == 0) && not (target.id == 0) && is_graphics_pass p.kind)
      (elim (slot_of src.id p.accesses) [
        | none ↦ q_assert g false (some p)
        | some slot ↦ resolve_into g p target sub slot
      ])

unfoldable pub has_depth : List ResourceAccess → Bool
unfolding is_depth
has_depth [] = false
has_depth (a ∷ accesses) = is_depth a.type || has_depth accesses

-- depth_stencil and depth_stencil_read_only, which differ in the type and the operations.
unfoldable pub depth_access :
    Graph → PassNode → AccessType → ResourceHandle → Ops → Subresource → Option PassNode
unfolding q_assert is_graphics_pass has_depth use_then
depth_access g p t h ops sub =
    q_assert g (not (h.id == 0) && is_graphics_pass p.kind)
      (q_assert g (not (has_depth p.accesses)) (use_then g p (attachment_use t h ops sub) as_is))

unfoldable pub depth_stencil :
    Graph → PassNode → ResourceHandle → Ops → Subresource → Option PassNode
unfolding depth_access
depth_stencil g p h ops sub = depth_access g p depth_stencil_attachment h ops sub

unfoldable pub depth_stencil_readable :
    Graph → PassNode → ResourceHandle → Subresource → Option PassNode
unfolding depth_access
depth_stencil_readable g p h sub = depth_access g p depth_stencil_read_only h no_ops sub

-- sampled, storage_read and storage_write of a texture.
unfoldable pub view_access :
    Graph → PassNode → AccessType → ResourceHandle → ViewRange → Option PassNode
unfolding use_then
view_access g p t h range =
    use_then g p
      (record {
        handle = h;
        type = t;
        ops = no_ops;
        sub = record { mip = range.base_mip; layer = range.base_layer };
        range = range;
      })
      as_is

unfoldable pub storage_read_write_texture :
    Graph → PassNode → ResourceHandle → ViewRange → Option PassNode
unfolding view_access
storage_read_write_texture g p h range =
    view_access g p storage_read h range >>= λ q. view_access g q storage_write h range

abbrev pub plain_use : AccessType → ResourceHandle → Use
plain_use t h = attachment_use t h no_ops (record { mip = 0; layer = 0 })

-- A plain access: host_write, vertex_buffer, index_buffer, indirect_buffer.
unfoldable pub plain_access : Graph → PassNode → AccessType → ResourceHandle → Option PassNode
unfolding use_then
plain_access g p t h = use_then g p (plain_use t h) as_is

pub record BufferRange : Type 0 where
  pub offset : ℕ
  pub size : ℕ

-- A size of 0 means the bytes that remain.
unfoldable pub range_size : ℕ → ℕ → ℕ → ℕ
range_size size offset buffer_size =
    if size == 0 then (if ltb offset buffer_size then buffer_size - offset else 0) else size

unfoldable pub with_bytes : ℕ → ℕ → Finish
with_bytes offset size a = record a { buf_offset = offset; buf_size = size }

-- storage_read, storage_write and uniform of a buffer, with set_bind_range. Without a node the source
-- follows a null pointer, which is no result here.
unfoldable pub bind_access :
    Graph → PassNode → AccessType → ResourceHandle → BufferRange → Option PassNode
unfolding use_then with_bytes range_size
bind_access g p t h range =
    if (range.offset == 0) && (range.size == 0)
    then use_then g p (plain_use t h) as_is
    else elim (g.nodes h.id) [
      | none ↦ none
      | some n ↦
          use_then g p (plain_use t h)
            (with_bytes range.offset (range_size range.size range.offset n.buffer_size))
    ]

unfoldable pub storage_read_write_buffer :
    Graph → PassNode → ResourceHandle → BufferRange → Option PassNode
unfolding bind_access
storage_read_write_buffer g p h range =
    bind_access g p storage_read h range >>= λ q. bind_access g q storage_write h range

-- copy_texture, copy_texture_to_buffer and copy_buffer_to_texture: a source and a destination.
unfoldable pub copy_between :
    Graph → PassNode → ResourceHandle → Subresource → ResourceHandle → Subresource → Option PassNode
unfolding q_assert is_transfer use_then
copy_between g p src src_sub dst dst_sub =
    q_assert g (not (src.id == 0) && not (dst.id == 0) && is_transfer p.kind) (
      use_then g p (attachment_use copy_src src no_ops src_sub) as_is >>= λ q.
      use_then g q (attachment_use copy_dst dst no_ops dst_sub) as_is)

unfoldable pub copy_texture :
    Graph → PassNode → ResourceHandle → Subresource → ResourceHandle → Subresource → Option PassNode
unfolding q_assert copy_between
copy_texture g p src src_sub dst dst_sub =
    q_assert g
      (not ((src.id == dst.id) && (src_sub.mip == dst_sub.mip) && (src_sub.layer == dst_sub.layer)))
      (copy_between g p src src_sub dst dst_sub)

unfoldable pub fully_defined : ℕ → ℕ → ℕ → Finish
unfolding with_bytes
fully_defined offset size buffer_size a = record (with_bytes offset size a) {
  buf_full_define = (offset == 0) && (size == buffer_size);
}

unfoldable pub copy_bytes :
    Graph → PassNode → ResourceHandle → ResourceHandle → ℕ → ℕ → ℕ → ResourceNode → Option PassNode
unfolding use_then with_bytes fully_defined
copy_bytes g p src dst src_offset dst_offset n dn =
    use_then g p (plain_use copy_src src) (with_bytes src_offset n) >>= λ q.
    use_then g q (plain_use copy_dst dst) (fully_defined dst_offset n dn.buffer_size)

unfoldable pub copy_buffer :
    Graph → PassNode → ResourceHandle → ResourceHandle → ℕ → ℕ → ℕ → Option PassNode
unfolding q_assert is_transfer range_size copy_bytes
copy_buffer g p src dst src_offset dst_offset size =
    q_assert g
      (not (src.id == 0) && not (dst.id == 0) && is_transfer p.kind && not (src.id == dst.id))
      (q_assert g ((src_offset % 4 == 0) && (dst_offset % 4 == 0) && (size % 4 == 0))
        (elim (g.nodes src.id) [
          | none ↦ none
          | some sn ↦ elim (g.nodes dst.id) [
            | none ↦ none
            | some dn ↦
                copy_bytes g p src dst src_offset dst_offset
                  (range_size size src_offset sn.buffer_size) dn
          ]
        ]))

unfoldable pub has_init_target : ℕ → List InitTarget → Bool
has_init_target id [] = false
has_init_target id (t ∷ targets) = (t.target.id == id) || has_init_target id targets

abbrev pub max_init_targets : ℕ
max_init_targets = 8

unfoldable pub add_init_target : Graph → PassNode → ResourceHandle → ℕ → Option PassNode
unfolding q_assert
add_init_target g p target hash =
    if leb max_init_targets (length p.init_targets)
    then q_assert g false (some p)
    else some
        (record p { init_targets = p.init_targets ++ record { target = target; hash = hash } ∷ [] })

unfoldable pub initialize : Graph → PassNode → ResourceHandle → ℕ → Option PassNode
unfolding q_assert has_init_target add_init_target
initialize g p target hash = q_assert g (not (target.id == 0) && ltb target.id g.next_resource_id) (
    if target.id == 0
    then some p
    else q_assert g (not (has_init_target target.id p.init_targets))
        (add_init_target g p target hash))

unfoldable pub force_keep_pass : PassNode → PassNode
force_keep_pass p = record p { force_keep = true }
