-- ===== src/RenderGraph/Checks/Declared.antt =====
-- What validate_render_passes gathers of a pass is what the pass declares, in terms of the types of
-- its accesses, where it declares at most 8 color and 8 resolve attachments.
use alpenite.Prelude.{
  ℕ, suc, ◌+◌, ◌≤◌, ◌≡◌, refl, ap, ◌∙◌, arith, Bool, true, false, Option, some, List, [], ◌∷◌, ◌++◌,
  append-nil, append_assoc, map, length, length-append, ltb, if◌then◌else◌,
}
use alpenite.RenderGraph.Access.{
  ResourceAccess, AccessType, color_attachment, resolve_attachment, depth_stencil_attachment,
  depth_stencil_read_only, sampled, storage_read, storage_write, uniform, copy_src, copy_dst,
  vertex, index, indirect,
}
use alpenite.RenderGraph.Resources.{ResourceNode, Extent}
use alpenite.RenderGraph.Checks.Attachments.{
  Attachment, Attachments, no_role, color_role, resolve_role, depth_role, role, attach,
  attachment_of, collect, max_color_attachments,
}

-- The accesses of a pass that are of a type.
abbrev pub of_type : (AccessType → Bool) → List ResourceAccess → List ResourceAccess
of_type test [] = []
of_type test (a ∷ accesses) =
    if test a.type then a ∷ of_type test accesses else of_type test accesses

abbrev pub is_color : AccessType → Bool
is_color color_attachment = true
is_color _ = false

abbrev pub is_resolve : AccessType → Bool
is_resolve resolve_attachment = true
is_resolve _ = false

abbrev pub is_depth : AccessType → Bool
is_depth depth_stencil_attachment = true
is_depth depth_stencil_read_only = true
is_depth _ = false

-- The last depth access of a pass is the one that is bound.
abbrev pub last_of : List Attachment → Option Attachment → Option Attachment
last_of [] o = o
last_of (t ∷ ts) o = last_of ts (some t)

-- What the code takes an access for, and what it is declared as.
data RoleCase (t : AccessType) : Type 0 where
  as_color :
      role t ≡ color_role
      → is_color t ≡ true
      → is_resolve t ≡ false
      → is_depth t ≡ false
      → RoleCase t
  as_resolve :
      role t ≡ resolve_role
      → is_color t ≡ false
      → is_resolve t ≡ true
      → is_depth t ≡ false
      → RoleCase t
  as_depth :
      role t ≡ depth_role
      → is_color t ≡ false
      → is_resolve t ≡ false
      → is_depth t ≡ true
      → RoleCase t
  as_none :
      role t ≡ no_role → is_color t ≡ false → is_resolve t ≡ false → is_depth t ≡ false → RoleCase t

role_cases : (t : AccessType) → RoleCase t
unfolding role
role_cases color_attachment = as_color refl refl refl refl
role_cases resolve_attachment = as_resolve refl refl refl refl
role_cases depth_stencil_attachment = as_depth refl refl refl refl
role_cases depth_stencil_read_only = as_depth refl refl refl refl
role_cases sampled = as_none refl refl refl refl
role_cases storage_read = as_none refl refl refl refl
role_cases storage_write = as_none refl refl refl refl
role_cases uniform = as_none refl refl refl refl
role_cases copy_src = as_none refl refl refl refl
role_cases copy_dst = as_none refl refl refl refl
role_cases vertex = as_none refl refl refl refl
role_cases index = as_none refl refl refl refl
role_cases indirect = as_none refl refl refl refl

-- There is room for one more attachment of a kind.
room_lem : (n m : ℕ) → n + suc m ≤ 8 → ltb n max_color_attachments ≡ true
room_lem n m h = ground arith

module _ (by_id : ℕ → ResourceNode) (resolved : ℕ → Extent) where
  abbrev pub attachments : (AccessType → Bool) → List ResourceAccess → List Attachment
  attachments test accesses = map (attachment_of by_id resolved) (of_type test accesses)

  -- The attachments that the accesses of a pass declare.
  abbrev pub declared : List ResourceAccess → Attachments → Attachments
  declared accesses s = record {
    color = s.color ++ attachments is_color accesses;
    resolve = s.resolve ++ attachments is_resolve accesses;
    depth = last_of (attachments is_depth accesses) s.depth;
  }

  pub collect-declared :
      (p : ℕ) (accesses : List ResourceAccess) (s : Attachments)
      → length s.color + length (of_type is_color accesses) ≤ 8
      → length s.resolve + length (of_type is_resolve accesses) ≤ 8
      → (collect by_id resolved p accesses s).0 ≡ declared accesses s
  unfolding collect attach
  collect-declared p [] s hc hr = rw (append-nil s.color, append-nil s.resolve) refl
  collect-declared p (a ∷ accesses) s hc hr =
      let t = attachment_of by_id resolved a in
      elim (role_cases a.type) [
        | as_none e c r d ↦
            rw (collect, e, c, r, d) (collect-declared p accesses s (rw (c) at hc) (rw (r) at hr))
        | as_depth e c r d ↦
            rw (collect, e, c, r, d)
              (collect-declared p accesses (record s { depth = some t }) (rw (c) at hc)
                (rw (r) at hr))
        | as_color e c r d ↦
            let fits : length s.color + suc (length (of_type is_color accesses)) ≤ 8 =
              rw (c) at hc in
            let room = room_lem (length s.color) (length (of_type is_color accesses)) fits in
            let next =
              collect-declared p accesses (record s { color = s.color ++ t ∷ [] })
                (omega (arith, length-append s.color (t ∷ []), fits)) (rw (r) at hr) in
            rw (collect, e, attach, room, c, r, d)
              (next
                ∙ ap (λ l. record (declared accesses s) { color = l })
                    (append_assoc s.color (t ∷ []) (attachments is_color accesses)))
        | as_resolve e c r d ↦
            let fits : length s.resolve + suc (length (of_type is_resolve accesses)) ≤ 8 =
              rw (r) at hr in
            let room = room_lem (length s.resolve) (length (of_type is_resolve accesses)) fits in
            let next =
              collect-declared p accesses (record s { resolve = s.resolve ++ t ∷ [] })
                (rw (c) at hc) (omega (arith, length-append s.resolve (t ∷ []), fits)) in
            rw (collect, e, attach, room, c, r, d)
              (next
                ∙ ap (λ l. record (declared accesses s) { resolve = l })
                    (append_assoc s.resolve (t ∷ []) (attachments is_resolve accesses)))
      ]
