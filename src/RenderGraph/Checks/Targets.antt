-- ===== src/RenderGraph/Checks/Targets.antt =====
-- What a render pass without errors has: targets of one shape, a depth format with the operations
-- that its stencil asks for, and resolve targets that match their sources.
use alpenite.Prelude.{
  ℕ, ◌≤◌, ◌≡◌, ◌≢◌, refl, sym, subst, ◌∙◌, arith, Option, none, some, some-injective, some≢none,
  List, [], ◌∷◌, ◌++◌, All, All-map, All-append, append-empty, Bool-cases, Option-cases, inl, inr,
  length, ltb,
}
use alpenite.RenderGraph.Access.{ResourceAccess}
use alpenite.RenderGraph.Nodes.{PassNode}
use alpenite.RenderGraph.Resources.{ResourceNode, Extent}
use alpenite.RenderGraph.Checks.Attachments.{
  FormatName, Attachment, Attachments, Role, no_role, color_role, resolve_role, depth_role, role,
  attach, attachment_of, collect, check_all_against, depths_errors, flat_error, resolve_errors,
  reference, to_list, attachment_errors, no_attachment, no_attachments, render_pass_errors,
  max_color_attachments,
}
use alpenite.RenderGraph.Checks.Shapes.{
  IsAlike, IsDepth, IsResolve, IsFlat, check_all_lem, depth_lem, resolve_lem, flat_lem,
}
use alpenite.RenderGraph.Checks.Declared.{
  of_type, is_color, is_resolve, is_depth, last_of, attachments, collect-declared,
}

IsAlike-pairs :
    (ref : Attachment) (ts : List Attachment)
    → All (λ t. IsAlike t ref) ts
    → All (λ t. All (IsAlike t) ts) ts
IsAlike-pairs ref ts h =
    All-map (λ t. IsAlike t ref) (λ t. All (IsAlike t) ts) ts
      (λ t ht. All-map (λ u. IsAlike u ref) (IsAlike t) ts (λ u hu. ground arith) h) h

abbrev pub targets : Attachments → List Attachment
targets s = s.color ++ to_list s.depth

pub record IsFlatAll (s : Attachments) : Type 0 where
  pub color : All IsFlat s.color
  pub resolve : All IsFlat s.resolve
  pub depth : All IsFlat (to_list s.depth)

-- What a render pass has to be.
pub record IsRenderPass (formats : ℕ → FormatName) (s : Attachments) : Type 0 where
  pub some_target : targets s ≢ []
  pub alike : All (λ t. All (IsAlike t) (targets s)) (targets s)
  pub depth : All (IsDepth formats) (to_list s.depth)
  pub resolved : All (IsResolve s.color) s.resolve
  pub flat : IsFlatAll s

attach-IsFlatAll :
    (r : Role) (t : Attachment) (s : Attachments) {s' : Attachments}
    → IsFlat t
    → IsFlatAll s
    → attach r t s ≡ some s'
    → IsFlatAll s'
unfolding attach
attach-IsFlatAll no_role t s {s' = s'} h f e = absurd (cc)
attach-IsFlatAll color_role t s {s' = s'} h f e =
    elim (Bool-cases (ltb (length s.color) max_color_attachments)) [
      | inr full ↦ absurd (some≢none (sym e ∙ rw (attach, full) refl))
      | inl room ↦
          let made : attach color_role t s ≡ some (record s { color = s.color ++ t ∷ [] }) =
            rw (attach, room) refl in
          subst IsFlatAll (some-injective _ _ (sym made ∙ e)) (record {
            color = All-append IsFlat s.color (t ∷ []) f.color (h, tt);
            resolve = f.resolve;
            depth = f.depth;
          })
    ]
attach-IsFlatAll resolve_role t s {s' = s'} h f e =
    elim (Bool-cases (ltb (length s.resolve) max_color_attachments)) [
      | inr full ↦ absurd (some≢none (sym e ∙ rw (attach, full) refl))
      | inl room ↦
          let made : attach resolve_role t s ≡ some (record s { resolve = s.resolve ++ t ∷ [] }) =
            rw (attach, room) refl in
          subst IsFlatAll (some-injective _ _ (sym made ∙ e)) (record {
            color = f.color;
            resolve = All-append IsFlat s.resolve (t ∷ []) f.resolve (h, tt);
            depth = f.depth;
          })
    ]
attach-IsFlatAll depth_role t s {s' = s'} h f e =
    subst IsFlatAll (some-injective _ _ e)
      (record { color = f.color; resolve = f.resolve; depth = (h, tt) })

collect-IsFlatAll :
    (by_id : ℕ → ResourceNode) (resolved : ℕ → Extent) (p : ℕ) (accesses : List ResourceAccess)
    (s : Attachments)
    → IsFlatAll s
    → (collect by_id resolved p accesses s).1 ≡ []
    → IsFlatAll (collect by_id resolved p accesses s).0
unfolding collect
collect-IsFlatAll by_id resolved p [] s f h = f
collect-IsFlatAll by_id resolved p (a ∷ accesses) s f h =
    let t = attachment_of by_id resolved a in
    elim (Option-cases (attach (role a.type) t s)) [
      | inl e ↦
          rw (e, collect) (collect-IsFlatAll by_id resolved p accesses s f (rw (e, collect) at h))
      | inr (s', e) ↦
          let (here, later) = append-empty (flat_error p t) _ (rw (e, collect) at h) in
          rw (e, collect)
            (collect-IsFlatAll by_id resolved p accesses s'
              (attach-IsFlatAll (role a.type) t s (flat_lem p t here) f e) later)
    ]

reference-some : (s : Attachments) (ref : Attachment) → reference s ≡ some ref → targets s ≢ []
unfolding reference
reference-some s ref e h =
    let (no_color, no_depth) = append-empty s.color (to_list s.depth) h in
    elim (Option-cases s.depth) [
      | inl n ↦
          let nothing : reference s ≡ none = rw (reference, no_color, n) refl in
          absurd (some≢none (sym e ∙ nothing))
      | inr (t, n) ↦ let one : t ∷ [] ≡ [] = rw (n) at no_depth in absurd (cc)
    ]

depths_lem :
    (formats : ℕ → FormatName) (p : ℕ) (o : Option Attachment)
    → depths_errors formats p o ≡ []
    → All (IsDepth formats) (to_list o)
unfolding depths_errors
depths_lem formats p none h = tt
depths_lem formats p (some t) h = (depth_lem formats p t h, tt)

attachments_lem :
    (formats : ℕ → FormatName) (p : ℕ) (s : Attachments)
    → IsFlatAll s
    → attachment_errors formats p s ≡ []
    → IsRenderPass formats s
unfolding attachment_errors
attachments_lem formats p s f h = elim (Option-cases (reference s)) [
  | inl e ↦
      let pushed : attachment_errors formats p s ≡ no_attachments p ∷ [] =
        rw (e, attachment_errors) refl in
      absurd (cc)
  | inr (ref, e) ↦
      let resolves = resolve_errors p s.color s.resolve in
      let depths = depths_errors formats p s.depth in
      let deep = check_all_against p ref (to_list s.depth) in
      let colors = check_all_against p ref s.color in
      let opened : colors ++ deep ++ depths ++ resolves ≡ [] = rw (e, attachment_errors) at h in
      let (h3, h5) = append-empty (colors ++ deep ++ depths) resolves opened in
      let (h1, h4) = append-empty (colors ++ deep) depths h3 in
      let (h0, h2) = append-empty colors deep h1 in
      record {
        some_target = reference-some s ref e;
        alike = IsAlike-pairs ref (targets s) (
            All-append (λ t. IsAlike t ref) s.color (to_list s.depth)
              (check_all_lem p ref s.color h0) (check_all_lem p ref (to_list s.depth) h2));
        depth = depths_lem formats p s.depth h4;
        resolved = resolve_lem p s.color s.resolve h5;
        flat = f;
      }
]

-- On a graphics pass with at most 8 color and 8 resolve attachments, let the check push no error. Then the pass declares a color or depth attachment, and of the declared color attachments and the depth attachment (writable or read-only, the last one declared) all have one size and sample count; none of these and no resolve attachment is 3d; the depth attachment has a depth format, stencil operations only where that has a stencil, and, if it is writable and has a stencil, some stencil operation; and each resolve attachment is single-sampled and matches its source, the first color attachment of its slot, which is multisampled, in format and size, where the pass declares one.
pub render_pass_errors_sound :
    (formats : ℕ → FormatName) (by_id : ℕ → ResourceNode) (resolved : ℕ → Extent) (p : PassNode)
    → length (of_type is_color p.accesses) ≤ 8
    → length (of_type is_resolve p.accesses) ≤ 8
    → render_pass_errors formats by_id resolved p ≡ []
    → IsRenderPass formats (record {
      color = attachments by_id resolved is_color p.accesses;
      resolve = attachments by_id resolved is_resolve p.accesses;
      depth = last_of (attachments by_id resolved is_depth p.accesses) none;
    })
unfolding render_pass_errors
render_pass_errors_sound formats by_id resolved p few_colors few_resolves h =
    let (met, sound) =
      append-empty (collect by_id resolved p.index p.accesses no_attachment).1 _ h in
    subst (IsRenderPass formats)
      (collect-declared by_id resolved p.index p.accesses no_attachment (omega arith) (omega arith))
      (attachments_lem formats p.index _
        (collect-IsFlatAll by_id resolved p.index p.accesses no_attachment
          (record { color = tt; resolve = tt; depth = tt }) met)
        sound)
