-- ===== src/RenderGraph/Record/Kept.antt =====
-- Every call keeps a pass clean.
use alpenite.Prelude.{
  ℕ, ◌%◌, ◌≡◌, refl, subst, arith, true, false, not, ◌&&◌, Option, none, some, List, [], ◌∷◌, All,
  Bool-cases, Option-cases, inl, inr, leb, length, ◌==◌, ltb, if◌then◌else◌,
}
use alpenite.RenderGraph.Access.{
  ResourceHandle, AccessType, color_attachment, depth_stencil_attachment, depth_stencil_read_only,
  resolve_attachment, storage_read, storage_write, copy_src, copy_dst,
}
use alpenite.RenderGraph.Nodes.{PassNode}
use alpenite.RenderGraph.Resources.{ResourceNode}
use alpenite.RenderGraph.Record.Defs.{
  Graph, q_assert, Subresource, ViewRange, Ops, no_ops, Use, is_transfer, is_graphics_pass,
  use_then, Finish, as_is, part_of,
}
use alpenite.RenderGraph.Record.Calls.{
  ◌>>=◌, color, resolve, resolve_into, depth_access, depth_stencil, depth_stencil_readable,
  view_access, storage_read_write_texture, plain_access, BufferRange, bind_access,
  storage_read_write_buffer, copy_between, copy_texture, copy_bytes, copy_buffer, initialize,
  add_init_target, force_keep_pass, attachment_use, plain_use, with_slot, with_bytes, fully_defined,
  has_slot, is_color, is_resolve, slot_of, has_depth, range_size, has_init_target, max_init_targets,
}
use alpenite.RenderGraph.Record.Clean.{
  IsNarrow, IsFinish, IsKept, IsClean, Keeps, q_assert-Keeps, if-Keeps, >>=-Keeps, use_then-Keeps,
}
use alpenite.RenderGraph.Record.Session.{
  Call, call_color, call_resolve, call_depth_stencil, call_depth_stencil_readable, call_view,
  call_storage_read_write_texture, call_plain, call_bind, call_storage_read_write_buffer,
  call_copy_between, call_copy_texture, call_copy_buffer, call_initialize, call_force_keep,
  record_call, record_calls, IsNarrowSub, IsNarrowRange, IsNarrowCall,
}

as_is-IsFinish : IsFinish as_is
as_is-IsFinish = record { same_id = λ a. refl; same_part = λ a. refl }

with_slot-IsFinish : (slot : ℕ) → IsFinish (with_slot slot)
unfolding with_slot part_of
with_slot-IsFinish slot = record { same_id = λ a. refl; same_part = λ a. refl }

with_bytes-IsFinish : (offset size : ℕ) → IsFinish (with_bytes offset size)
unfolding with_bytes part_of
with_bytes-IsFinish offset size = record { same_id = λ a. refl; same_part = λ a. refl }

fully_defined-IsFinish : (offset size n : ℕ) → IsFinish (fully_defined offset size n)
unfolding fully_defined part_of
fully_defined-IsFinish offset size n = record { same_id = λ a. refl; same_part = λ a. refl }

attachment-IsNarrow :
    (t : AccessType) (h : ResourceHandle) (ops : Ops) (sub : Subresource)
    → IsNarrowSub sub
    → IsNarrow (attachment_use t h ops sub)
attachment-IsNarrow t h ops sub n = record {
  mip = n.0;
  layer = n.1;
  mips = omega arith;
  layers = omega arith;
}

module _ (g : Graph) (on : g.asserts ≡ true) where
  attachment-Keeps :
      (p : PassNode) (t : AccessType) (h : ResourceHandle) (ops : Ops) (sub : Subresource)
      (finish : Finish)
      → IsNarrowSub sub
      → IsFinish finish
      → IsKept p
      → Keeps (use_then g p (attachment_use t h ops sub) finish)
  attachment-Keeps p t h ops sub finish n f k =
      use_then-Keeps g p (attachment_use t h ops sub) finish on (attachment-IsNarrow t h ops sub n)
        f k

  plain-Keeps :
      (p : PassNode) (t : AccessType) (h : ResourceHandle) (finish : Finish)
      → IsFinish finish
      → IsKept p
      → Keeps (use_then g p (plain_use t h) finish)
  plain-Keeps p t h finish f k =
      attachment-Keeps p t h no_ops (record { mip = 0; layer = 0 }) finish
        (omega arith, omega arith) f k

  view-Keeps :
      (p : PassNode) (t : AccessType) (h : ResourceHandle) (range : ViewRange)
      → IsNarrowRange range
      → IsKept p
      → Keeps (view_access g p t h range)
  unfolding view_access
  view-Keeps p t h range n k =
      let u : Use = record {
        handle = h;
        type = t;
        ops = no_ops;
        sub = record { mip = range.base_mip; layer = range.base_layer };
        range = range;
      } in
      use_then-Keeps g p u as_is on (record { mip = n.0; layer = n.1; mips = n.2; layers = n.3 })
        as_is-IsFinish k

  bind-Keeps :
      (p : PassNode) (t : AccessType) (h : ResourceHandle) (range : BufferRange)
      → IsKept p
      → Keeps (bind_access g p t h range)
  unfolding bind_access
  bind-Keeps p t h range k = elim (Bool-cases ((range.offset == 0) && (range.size == 0))) [
    | inl all ↦ rw (all, bind_access) (plain-Keeps p t h as_is as_is-IsFinish k)
    | inr part ↦ elim (Option-cases (g.nodes h.id)) [
      | inl e ↦ rw (part, e, bind_access) tt
      | inr (n, e) ↦
          rw (part, e, bind_access)
            (plain-Keeps p t h
              (with_bytes range.offset (range_size range.size range.offset n.buffer_size))
              (with_bytes-IsFinish range.offset (range_size range.size range.offset n.buffer_size))
              k)
    ]
  ]

  color-Keeps :
      (p : PassNode) (h : ResourceHandle) (slot : ℕ) (ops : Ops) (sub : Subresource)
      → IsNarrowSub sub
      → IsKept p
      → Keeps (color g p h slot ops sub)
  unfolding color
  color-Keeps p h slot ops sub n k =
      let dropped = q_assert-Keeps g false (some p) k in
      let put =
        attachment-Keeps p color_attachment h ops sub (with_slot slot) n (with_slot-IsFinish slot)
          k in
      let made = use_then g p (attachment_use color_attachment h ops sub) (with_slot slot) in
      let drop = q_assert g false (some p) in
      let fresh = if has_slot is_color slot p.accesses then drop else made in
      q_assert-Keeps g (not (h.id == 0) && is_graphics_pass p.kind)
        (if leb 8 slot then drop else fresh)
        (if-Keeps (leb 8 slot) drop fresh dropped
          (if-Keeps (has_slot is_color slot p.accesses) drop made dropped put))

  resolve_into-Keeps :
      (p : PassNode) (target : ResourceHandle) (sub : Subresource) (slot : ℕ)
      → IsNarrowSub sub
      → IsKept p
      → Keeps (resolve_into g p target sub slot)
  unfolding resolve_into
  resolve_into-Keeps p target sub slot n k =
      if-Keeps (has_slot is_resolve slot p.accesses) (q_assert g false (some p))
        (use_then g p (attachment_use resolve_attachment target no_ops sub) (with_slot slot))
        (q_assert-Keeps g false (some p) k)
        (attachment-Keeps p resolve_attachment target no_ops sub (with_slot slot) n
          (with_slot-IsFinish slot) k)

  resolve-Keeps :
      (p : PassNode) (src target : ResourceHandle) (sub : Subresource)
      → IsNarrowSub sub
      → IsKept p
      → Keeps (resolve g p src target sub)
  unfolding resolve
  resolve-Keeps p src target sub n k =
      let start = not (src.id == 0) && not (target.id == 0) && is_graphics_pass p.kind in
      elim (Option-cases (slot_of src.id p.accesses)) [
        | inl e ↦
            rw (e, resolve)
              (q_assert-Keeps g start (q_assert g false (some p))
                (q_assert-Keeps g false (some p) k))
        | inr (slot, e) ↦
            rw (e, resolve)
              (q_assert-Keeps g start (resolve_into g p target sub slot)
                (resolve_into-Keeps p target sub slot n k))
      ]

  depth-Keeps :
      (p : PassNode) (t : AccessType) (h : ResourceHandle) (ops : Ops) (sub : Subresource)
      → IsNarrowSub sub
      → IsKept p
      → Keeps (depth_access g p t h ops sub)
  unfolding depth_access
  depth-Keeps p t h ops sub n k =
      let made = use_then g p (attachment_use t h ops sub) as_is in
      q_assert-Keeps g (not (h.id == 0) && is_graphics_pass p.kind)
        (q_assert g (not (has_depth p.accesses)) made)
        (q_assert-Keeps g (not (has_depth p.accesses)) made
          (attachment-Keeps p t h ops sub as_is n as_is-IsFinish k))

  copy_between-Keeps :
      (p : PassNode) (src : ResourceHandle) (src_sub : Subresource) (dst : ResourceHandle)
      (dst_sub : Subresource)
      → IsNarrowSub src_sub
      → IsNarrowSub dst_sub
      → IsKept p
      → Keeps (copy_between g p src src_sub dst dst_sub)
  unfolding copy_between
  copy_between-Keeps p src src_sub dst dst_sub n m k =
      let first = use_then g p (attachment_use copy_src src no_ops src_sub) as_is in
      let second : PassNode → Option PassNode =
        λ q. use_then g q (attachment_use copy_dst dst no_ops dst_sub) as_is in
      q_assert-Keeps g (not (src.id == 0) && not (dst.id == 0) && is_transfer p.kind)
        (first >>= second)
        (>>=-Keeps first second
          (attachment-Keeps p copy_src src no_ops src_sub as_is n as_is-IsFinish k)
          (λ q kq. attachment-Keeps q copy_dst dst no_ops dst_sub as_is m as_is-IsFinish kq))

  copy_bytes-Keeps :
      (p : PassNode) (src dst : ResourceHandle) (src_offset dst_offset n : ℕ) (dn : ResourceNode)
      → IsKept p
      → Keeps (copy_bytes g p src dst src_offset dst_offset n dn)
  unfolding copy_bytes
  copy_bytes-Keeps p src dst src_offset dst_offset n dn k =
      let first = use_then g p (plain_use copy_src src) (with_bytes src_offset n) in
      let second : PassNode → Option PassNode =
        λ q. use_then g q (plain_use copy_dst dst) (fully_defined dst_offset n dn.buffer_size) in
      >>=-Keeps first second
        (plain-Keeps p copy_src src (with_bytes src_offset n) (with_bytes-IsFinish src_offset n) k)
        (λ q kq.
          plain-Keeps q copy_dst dst (fully_defined dst_offset n dn.buffer_size)
            (fully_defined-IsFinish dst_offset n dn.buffer_size) kq)

  copy_buffer-Keeps :
      (p : PassNode) (src dst : ResourceHandle) (src_offset dst_offset size : ℕ)
      → IsKept p
      → Keeps (copy_buffer g p src dst src_offset dst_offset size)
  unfolding copy_buffer
  copy_buffer-Keeps p src dst src_offset dst_offset size k =
      let handles =
        not (src.id == 0) && not (dst.id == 0) && is_transfer p.kind && not (src.id == dst.id) in
      let even = (src_offset % 4 == 0) && (dst_offset % 4 == 0) && (size % 4 == 0) in
      let checked : (o : Option PassNode)
          → Keeps o
          → Keeps (q_assert g handles (q_assert g even o)) =
        λ o h. q_assert-Keeps g handles (q_assert g even o) (q_assert-Keeps g even o h) in
      elim (Option-cases (g.nodes src.id)) [
        | inl e ↦ rw (e, copy_buffer) (checked none tt)
        | inr (sn, e) ↦ elim (Option-cases (g.nodes dst.id)) [
          | inl f ↦ rw (e, f, copy_buffer) (checked none tt)
          | inr (dn, f) ↦
              let n = range_size size src_offset sn.buffer_size in
              rw (e, f, copy_buffer)
                (checked (copy_bytes g p src dst src_offset dst_offset n dn)
                  (copy_bytes-Keeps p src dst src_offset dst_offset n dn k))
        ]
      ]

  add_init_target-Keeps :
      (p : PassNode) (target : ResourceHandle) (hash : ℕ)
      → IsKept p
      → Keeps (add_init_target g p target hash)
  unfolding add_init_target
  add_init_target-Keeps p target hash k =
      elim (Bool-cases (leb max_init_targets (length p.init_targets))) [
        | inl full ↦ rw (full, add_init_target) (q_assert-Keeps g false (some p) k)
        | inr room ↦ rw (room, add_init_target) k
      ]

  initialize-Keeps :
      (p : PassNode) (target : ResourceHandle) (hash : ℕ)
      → IsKept p
      → Keeps (initialize g p target hash)
  unfolding initialize
  initialize-Keeps p target hash k =
      let again =
        q_assert g (not (has_init_target target.id p.init_targets))
          (add_init_target g p target hash) in
      q_assert-Keeps g (not (target.id == 0) && ltb target.id g.next_resource_id)
        (if target.id == 0 then some p else again)
        (if-Keeps (target.id == 0) (some p) again k (
          q_assert-Keeps g (not (has_init_target target.id p.init_targets))
            (add_init_target g p target hash) (add_init_target-Keeps p target hash k)))

  -- One call of any kind.
  record_call-Keeps :
      (p : PassNode) (c : Call) → IsNarrowCall c → IsKept p → Keeps (record_call g p c)
  unfolding record_call depth_stencil depth_stencil_readable storage_read_write_texture
      storage_read_write_buffer plain_access copy_texture force_keep_pass
  record_call-Keeps p (call_color h slot ops sub) n k = color-Keeps p h slot ops sub n k
  record_call-Keeps p (call_resolve src target sub) n k = resolve-Keeps p src target sub n k
  record_call-Keeps p (call_depth_stencil h ops sub) n k =
      depth-Keeps p depth_stencil_attachment h ops sub n k
  record_call-Keeps p (call_depth_stencil_readable h sub) n k =
      depth-Keeps p depth_stencil_read_only h no_ops sub n k
  record_call-Keeps p (call_view t h range) n k = view-Keeps p t h range n k
  record_call-Keeps p (call_storage_read_write_texture h range) n k =
      >>=-Keeps (view_access g p storage_read h range) (λ q. view_access g q storage_write h range)
        (view-Keeps p storage_read h range n k) (λ q kq. view-Keeps q storage_write h range n kq)
  record_call-Keeps p (call_plain t h) n k = plain-Keeps p t h as_is as_is-IsFinish k
  record_call-Keeps p (call_bind t h range) n k = bind-Keeps p t h range k
  record_call-Keeps p (call_storage_read_write_buffer h range) n k =
      >>=-Keeps (bind_access g p storage_read h range) (λ q. bind_access g q storage_write h range)
        (bind-Keeps p storage_read h range k) (λ q kq. bind-Keeps q storage_write h range kq)
  record_call-Keeps p (call_copy_between src src_sub dst dst_sub) n k =
      copy_between-Keeps p src src_sub dst dst_sub n.0 n.1 k
  record_call-Keeps p (call_copy_texture src src_sub dst dst_sub) n k =
      q_assert-Keeps g
        (not
          ((src.id == dst.id) && (src_sub.mip == dst_sub.mip) && (src_sub.layer == dst_sub.layer)))
        (copy_between g p src src_sub dst dst_sub)
        (copy_between-Keeps p src src_sub dst dst_sub n.0 n.1 k)
  record_call-Keeps p (call_copy_buffer src dst src_offset dst_offset size) n k =
      copy_buffer-Keeps p src dst src_offset dst_offset size k
  record_call-Keeps p (call_initialize target hash) n k = initialize-Keeps p target hash k
  record_call-Keeps p call_force_keep n k = k

  calls-Keeps :
      (calls : List Call) (p : PassNode)
      → All IsNarrowCall calls
      → IsKept p
      → Keeps (record_calls g p calls)
  unfolding record_calls
  calls-Keeps [] p n k = k
  calls-Keeps (c ∷ calls) p n k =
      >>=-Keeps (record_call g p c) (λ q. record_calls g q calls) (record_call-Keeps p c n.0 k)
        (λ q kq. calls-Keeps calls q n.1 kq)

-- Where assertions are on, no calls on a graphics or compute pass record two accesses of one resource that conflict, whatever the calls are and in whatever order, if the mips and layers that they name fit the fields of an access.
pub record_calls-IsClean :
    (g : Graph) (p q : PassNode) (calls : List Call)
    → g.asserts ≡ true
    → All IsNarrowCall calls
    → is_transfer p.kind ≡ false
    → IsClean p.accesses
    → record_calls g p calls ≡ some q
    → IsClean q.accesses
record_calls-IsClean g p q calls on n kind clean h =
    let kept : IsKept q = subst Keeps h (calls-Keeps g on calls p n (kind, clean)) in kept.1
