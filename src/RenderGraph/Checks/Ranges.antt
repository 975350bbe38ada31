-- ===== src/RenderGraph/Checks/Ranges.antt =====
-- The expansion of counts in compile_impl, and validate_access_ranges: what an access covers lies
-- within its resource. An error is named for its message, with the pass and the resource.
use alpenite.Prelude.{
  ℕ, ◌+◌, ◌-◌, ◌%◌, ◌^◌, ◌≤◌, ◌<◌, ◌≡◌, ◌↔◌, ◌⊎◌, refl, sym, subst, ◌∙◌, arith, Bool, true, false,
  not, ◌&&◌, List, [], ◌∷◌, ◌++◌, All, append-empty, Bool-cases, inl, inr, ltb, leb, ◌==◌,
  if◌then◌else◌,
}
use alpenite.RenderGraph.Access.{
  ResourceAccess, AccessType, uniform, storage_read, storage_write, is_buffer,
}
use alpenite.RenderGraph.Nodes.{PassNode}
use alpenite.RenderGraph.Resources.{ResourceNode, node_layers}

-- 0 means all that remains. The counts are a uint8_t and a uint16_t.
unfoldable pub expand_mips : ℕ → ℕ → ℕ → ℕ
expand_mips base count mips = if (count == 0) && ltb base mips then (mips - base) % 2 ^ 8 else count

unfoldable pub expand_layers : ℕ → ℕ → ℕ → ℕ
expand_layers base count layers =
    if (count == 0) && ltb base layers then (layers - base) % 2 ^ 16 else count

unfoldable pub expand_texture : ResourceNode → ResourceAccess → ResourceAccess
unfolding expand_mips expand_layers
expand_texture r a = record a {
  mip_count = expand_mips a.base_mip a.mip_count r.mip_level_count;
  layer_count = expand_layers a.base_layer a.layer_count (node_layers r);
}

unfoldable pub expand_access : ResourceNode → ResourceAccess → ResourceAccess
unfolding is_buffer expand_texture
expand_access r a = if is_buffer r.kind then a else expand_texture r a

unfoldable pub expand_accesses : (ℕ → ResourceNode) → List ResourceAccess → List ResourceAccess
unfolding expand_access
expand_accesses by_id [] = []
expand_accesses by_id (a ∷ accesses) =
    expand_access (by_id a.handle.id) a ∷ expand_accesses by_id accesses

pub data RangeError : Type 0 where
  mip_past_end layer_past_end mips_past_end layers_past_end bytes_past_end empty_binding
        unaligned_binding :
      ℕ → ℕ → RangeError

unfoldable pub is_bind_access : AccessType → Bool
is_bind_access uniform = true
is_bind_access storage_read = true
is_bind_access storage_write = true
is_bind_access _ = false

abbrev pub error_if {ℓ} : {E : Type ℓ} → Bool → E → List E
error_if true e = e ∷ []
error_if false e = []

unfoldable pub texture_range_errors : ℕ → ResourceNode → ResourceAccess → List RangeError
texture_range_errors p r a =
    if leb r.mip_level_count a.base_mip
    then mip_past_end p r.handle.id ∷ []
    else if leb (node_layers r) a.base_layer
    then layer_past_end p r.handle.id ∷ []
    else error_if (ltb r.mip_level_count (a.base_mip + a.mip_count)) (mips_past_end p r.handle.id)
      ++ error_if (ltb (node_layers r) (a.base_layer + a.layer_count))
          (layers_past_end p r.handle.id)

-- The end of a byte range wraps as uint64_t does.
unfoldable pub buffer_range_errors : ℕ → ResourceNode → ResourceAccess → List RangeError
unfolding is_bind_access
buffer_range_errors p r a =
    if (a.buf_size == 0) && (a.buf_offset == 0)
    then []
    else error_if (ltb r.buffer_size ((a.buf_offset + a.buf_size) % 2 ^ 64))
        (bytes_past_end p r.handle.id)
      ++ error_if (is_bind_access a.type && (a.buf_size == 0)) (empty_binding p r.handle.id)
      ++ error_if (is_bind_access a.type && not (a.buf_offset % 256 == 0))
          (unaligned_binding p r.handle.id)

unfoldable pub range_errors : ℕ → ResourceNode → ResourceAccess → List RangeError
unfolding is_buffer texture_range_errors buffer_range_errors
range_errors p r a =
    if is_buffer r.kind then buffer_range_errors p r a else texture_range_errors p r a

unfoldable pub accesses_range_errors :
    (ℕ → ResourceNode) → ℕ → List ResourceAccess → List RangeError
unfolding range_errors
accesses_range_errors by_id p [] = []
accesses_range_errors by_id p (a ∷ accesses) =
    range_errors p (by_id a.handle.id) a ++ accesses_range_errors by_id p accesses

unfoldable pub validate_access_ranges : (ℕ → ResourceNode) → List PassNode → List RangeError
unfolding accesses_range_errors
validate_access_ranges by_id [] = []
validate_access_ranges by_id (p ∷ passes) =
    accesses_range_errors by_id p.index p.accesses ++ validate_access_ranges by_id passes

-- What a texture access has to cover: a part of the mips and of the layers.
pub record IsTextureRange (r : ResourceNode) (a : ResourceAccess) : Type 0 where
  pub mip : a.base_mip < r.mip_level_count
  pub layer : a.base_layer < node_layers r
  pub mips : a.base_mip + a.mip_count ≤ r.mip_level_count
  pub layers : a.base_layer + a.layer_count ≤ node_layers r

IsTextureRange-iff :
    (p : ℕ) (r : ResourceNode) (a : ResourceAccess)
    → (texture_range_errors p r a ≡ []) ↔ IsTextureRange r a
unfolding texture_range_errors
IsTextureRange-iff p r a = ground arith

-- What a byte range has to be: none declared, or one within the buffer, with bytes and an aligned
-- start where it is bound.
pub record IsByteRange (r : ResourceNode) (a : ResourceAccess) : Type 0 where
  pub within : a.buf_offset + a.buf_size ≤ r.buffer_size
  pub bound : is_bind_access a.type ≡ true → (0 < a.buf_size) × (a.buf_offset % 256 ≡ 0)

abbrev pub IsRange : ResourceNode → ResourceAccess → Type 0
IsRange r a =
    ((is_buffer r.kind ≡ false) × IsTextureRange r a)
    ⊎ ((is_buffer r.kind ≡ true) × (((a.buf_size ≡ 0) × (a.buf_offset ≡ 0)) ⊎ IsByteRange r a))

abbrev pub IsWord : ResourceAccess → Type 0
IsWord a = a.buf_offset + a.buf_size < 2 ^ 64

IsByteRange-iff :
    (p : ℕ) (r : ResourceNode) (a : ResourceAccess)
    → IsWord a
    → (buffer_range_errors p r a ≡ []) ↔ (((a.buf_size ≡ 0) × (a.buf_offset ≡ 0)) ⊎ IsByteRange r a)
unfolding buffer_range_errors
IsByteRange-iff p r a h = elim (Bool-cases (is_bind_access a.type)) [
  | inl bound ↦ ground arith
  | inr free ↦ ground arith
]

IsRange-iff :
    (p : ℕ) (r : ResourceNode) (a : ResourceAccess)
    → IsWord a
    → (range_errors p r a ≡ []) ↔ IsRange r a
unfolding range_errors
IsRange-iff p r a h =
    let bytes = IsByteRange-iff p r a h in
    let part = IsTextureRange-iff p r a in
    elim (Bool-cases (is_buffer r.kind)) [
      | inl e ↦ rw (e, range_errors) (ground (arith, bytes))
      | inr e ↦ rw (e, range_errors) (ground (arith, part))
    ]

accesses-IsRange_iff :
    (by_id : ℕ → ResourceNode) (p : ℕ) (accesses : List ResourceAccess)
    → All IsWord accesses
    → (accesses_range_errors by_id p accesses ≡ [])
      ↔ All (λ a. IsRange (by_id a.handle.id) a) accesses
unfolding accesses_range_errors
accesses-IsRange_iff by_id p [] h = (λ _. tt, λ _. refl)
accesses-IsRange_iff by_id p (a ∷ accesses) h =
    let first = IsRange-iff p (by_id a.handle.id) a h.0 in
    let rest = accesses-IsRange_iff by_id p accesses h.1 in
    (
      λ e.
          let (here, later) = append-empty (range_errors p (by_id a.handle.id) a) _ e in
          (first.0 here, rest.0 later),
      λ x. rw (first.1 x.0, rest.1 x.1) refl,
    )

-- The check of ranges pushes no error exactly when every access covers a part of its texture, or bytes within its buffer that are aligned and not empty where they are bound, for ranges of bytes that end below 2 ^ 64.
pub validate_access_ranges_iff :
    (by_id : ℕ → ResourceNode) (passes : List PassNode)
    → All (λ p. All IsWord p.accesses) passes
    → (validate_access_ranges by_id passes ≡ [])
      ↔ All (λ p. All (λ a. IsRange (by_id a.handle.id) a) p.accesses) passes
unfolding validate_access_ranges
validate_access_ranges_iff by_id [] h = (λ _. tt, λ _. refl)
validate_access_ranges_iff by_id (p ∷ passes) h =
    let first = accesses-IsRange_iff by_id p.index p.accesses h.0 in
    let rest = validate_access_ranges_iff by_id passes h.1 in
    (
      λ e.
          let (here, later) = append-empty (accesses_range_errors by_id p.index p.accesses) _ e in
          (first.0 here, rest.0 later),
      λ x. rw (first.1 x.0, rest.1 x.1) refl,
    )

abbrev pub IsCovering : ResourceNode → ResourceAccess → Type 0
IsCovering r a =
    (0 < a.mip_count)
    × (a.base_mip + a.mip_count ≤ r.mip_level_count)
    × (0 < a.layer_count)
    × (a.base_layer + a.layer_count ≤ node_layers r)

expand_texture-IsCovering :
    (r : ResourceNode) (a : ResourceAccess)
    → r.mip_level_count < 2 ^ 8
    → node_layers r < 2 ^ 16
    → IsTextureRange r (expand_texture r a)
    → IsCovering r (expand_texture r a)
unfolding expand_texture expand_mips expand_layers
expand_texture-IsCovering r a mips layers h = ground arith

-- An access to a texture that passes the check after the expansion covers at least one mip and one layer, and no more than the texture has, where the texture has less than 2 ^ 8 mips and 2 ^ 16 layers.
pub expand_access-IsCovering :
    (r : ResourceNode) (a : ResourceAccess) (p : ℕ)
    → is_buffer r.kind ≡ false
    → r.mip_level_count < 2 ^ 8
    → node_layers r < 2 ^ 16
    → range_errors p r (expand_access r a) ≡ []
    → IsCovering r (expand_access r a)
unfolding range_errors expand_access
expand_access-IsCovering r a p k mips layers h =
    let opened : expand_access r a ≡ expand_texture r a = rw (k, expand_access) refl in
    let none_pushed : range_errors p r (expand_texture r a) ≡ [] =
      subst (λ x. range_errors p r x ≡ []) opened h in
    let is_texture : range_errors p r (expand_texture r a)
        ≡ texture_range_errors p r (expand_texture r a) =
      rw (k, range_errors) refl in
    subst (IsCovering r) (sym opened) (
      expand_texture-IsCovering r a mips layers
        ((IsTextureRange-iff p r (expand_texture r a)).0 (sym is_texture ∙ none_pushed)))

-- A byte range that ends at 2 ^ 64 or later passes the check when its end wraps to one within the buffer, for an access that is not bound.
pub wrapped_range :
    (p : ℕ) (r : ResourceNode) (a : ResourceAccess)
    → is_buffer r.kind ≡ true
    → is_bind_access a.type ≡ false
    → 2 ^ 64 ≤ a.buf_offset + a.buf_size
    → a.buf_offset + a.buf_size ≤ 2 ^ 64 + r.buffer_size
    → r.buffer_size < 2 ^ 64
    → range_errors p r a ≡ []
unfolding range_errors buffer_range_errors
wrapped_range p r a k free low high small = rw (k, free, range_errors) (ground arith)
