-- ===== src/RenderGraph/Record/Session.antt =====
-- The calls on one pass as they are made one after the other.
use alpenite.Prelude.{ℕ, ◌^◌, ◌<◌, Option, some, List, [], ◌∷◌}
use alpenite.RenderGraph.Access.{ResourceHandle, AccessType}
use alpenite.RenderGraph.Nodes.{PassNode}
use alpenite.RenderGraph.Record.Defs.{Graph, Subresource, ViewRange, Ops}
use alpenite.RenderGraph.Record.Calls.{
  ◌>>=◌, color, resolve, depth_stencil, depth_stencil_readable, view_access,
  storage_read_write_texture, plain_access, BufferRange, bind_access, storage_read_write_buffer,
  copy_between, copy_texture, copy_buffer, initialize, force_keep_pass,
}

-- The member functions of PassBuilder that declare accesses; one constructor for those that differ in
-- the type of the access only.
pub data Call : Type 0 where
  call_color : ResourceHandle → ℕ → Ops → Subresource → Call
  call_resolve : ResourceHandle → ResourceHandle → Subresource → Call
  call_depth_stencil : ResourceHandle → Ops → Subresource → Call
  call_depth_stencil_readable : ResourceHandle → Subresource → Call
  call_view : AccessType → ResourceHandle → ViewRange → Call
  call_storage_read_write_texture : ResourceHandle → ViewRange → Call
  call_plain : AccessType → ResourceHandle → Call
  call_bind : AccessType → ResourceHandle → BufferRange → Call
  call_storage_read_write_buffer : ResourceHandle → BufferRange → Call
  call_copy_between : ResourceHandle → Subresource → ResourceHandle → Subresource → Call
  call_copy_texture : ResourceHandle → Subresource → ResourceHandle → Subresource → Call
  call_copy_buffer : ResourceHandle → ResourceHandle → ℕ → ℕ → ℕ → Call
  call_initialize : ResourceHandle → ℕ → Call
  call_force_keep : Call

unfoldable pub record_call : Graph → PassNode → Call → Option PassNode
unfolding color resolve depth_stencil depth_stencil_readable view_access storage_read_write_texture
    plain_access bind_access storage_read_write_buffer copy_between copy_texture copy_buffer
    initialize force_keep_pass
record_call g p (call_color h slot ops sub) = color g p h slot ops sub
record_call g p (call_resolve src target sub) = resolve g p src target sub
record_call g p (call_depth_stencil h ops sub) = depth_stencil g p h ops sub
record_call g p (call_depth_stencil_readable h sub) = depth_stencil_readable g p h sub
record_call g p (call_view t h range) = view_access g p t h range
record_call g p (call_storage_read_write_texture h range) = storage_read_write_texture g p h range
record_call g p (call_plain t h) = plain_access g p t h
record_call g p (call_bind t h range) = bind_access g p t h range
record_call g p (call_storage_read_write_buffer h range) = storage_read_write_buffer g p h range
record_call g p (call_copy_between src src_sub dst dst_sub) =
    copy_between g p src src_sub dst dst_sub
record_call g p (call_copy_texture src src_sub dst dst_sub) =
    copy_texture g p src src_sub dst dst_sub
record_call g p (call_copy_buffer src dst src_offset dst_offset size) =
    copy_buffer g p src dst src_offset dst_offset size
record_call g p (call_initialize target hash) = initialize g p target hash
record_call g p call_force_keep = some (force_keep_pass p)

unfoldable pub record_calls : Graph → PassNode → List Call → Option PassNode
unfolding record_call
record_calls g p [] = some p
record_calls g p (c ∷ calls) = record_call g p c >>= λ q. record_calls g q calls

abbrev pub IsNarrowSub : Subresource → Type 0
IsNarrowSub sub = (sub.mip < 2 ^ 8) × (sub.layer < 2 ^ 16)

abbrev pub IsNarrowRange : ViewRange → Type 0
IsNarrowRange r =
    (r.base_mip < 2 ^ 8)
    × (r.base_layer < 2 ^ 16)
    × (r.mip_count < 2 ^ 8)
    × (r.layer_count < 2 ^ 16)

-- The mips and layers that a call names fit the fields of an access.
abbrev pub IsNarrowCall : Call → Type 0
IsNarrowCall (call_color h slot ops sub) = IsNarrowSub sub
IsNarrowCall (call_resolve src target sub) = IsNarrowSub sub
IsNarrowCall (call_depth_stencil h ops sub) = IsNarrowSub sub
IsNarrowCall (call_depth_stencil_readable h sub) = IsNarrowSub sub
IsNarrowCall (call_view t h range) = IsNarrowRange range
IsNarrowCall (call_storage_read_write_texture h range) = IsNarrowRange range
IsNarrowCall (call_plain t h) = Unit
IsNarrowCall (call_bind t h range) = Unit
IsNarrowCall (call_storage_read_write_buffer h range) = Unit
IsNarrowCall (call_copy_between src src_sub dst dst_sub) = IsNarrowSub src_sub × IsNarrowSub dst_sub
IsNarrowCall (call_copy_texture src src_sub dst dst_sub) = IsNarrowSub src_sub × IsNarrowSub dst_sub
IsNarrowCall (call_copy_buffer src dst src_offset dst_offset size) = Unit
IsNarrowCall (call_initialize target hash) = Unit
IsNarrowCall call_force_keep = Unit
