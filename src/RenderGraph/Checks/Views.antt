-- ===== src/RenderGraph/Checks/Views.antt =====
-- validate_cube_views: what a cube view asks of a texture.
use alpenite.Prelude.{
  ℕ, ◌+◌, ◌*◌, ◌/◌, ◌%◌, ◌≤◌, ◌<◌, ◌≡◌, ◌≢◌, ◌⊎◌, ◌↔◌, refl, sym, ◌∙◌, arith, Bool, true, false,
  not, ◌||◌, List, [], ◌∷◌, ◌++◌, All, append-empty, Bool-cases, inl, inr, ltb, ◌==◌, if◌then◌else◌,
}
use alpenite.RenderGraph.Access.{
  ResourceAccess, AccessType, storage_read, storage_write, ViewDimension, view_cube,
  view_cube_array, is_buffer, ResourceKind, texture,
}
use alpenite.RenderGraph.Nodes.{PassNode, dim_2d}
use alpenite.RenderGraph.Resources.{ResourceNode, Extent, node_layers, is_dim_2d}
use alpenite.RenderGraph.Checks.Ranges.{error_if}

pub data ViewError : Type 0 where
  cube_storage cube_not_2d cube_not_square cube_not_six cube_not_multiple cube_past_end :
      ℕ → ℕ → ViewError

-- `Cube`, `CubeArray`, or another view.
pub data Cubeness : Type 0 where
  no_cube one_cube cube_array : Cubeness

unfoldable pub cubeness : ViewDimension → Cubeness
cubeness view_cube = one_cube
cubeness view_cube_array = cube_array
cubeness _ = no_cube

unfoldable pub is_storage : AccessType → Bool
is_storage storage_read = true
is_storage storage_write = true
is_storage _ = false

unfoldable pub layer_errors : ℕ → ResourceNode → Cubeness → ℕ → ℕ → List ViewError
layer_errors p r no_cube base count = []
layer_errors p r one_cube base count =
    if not (count == 6)
    then cube_not_six p r.handle.id ∷ []
    else error_if (ltb (node_layers r) (base + count)) (cube_past_end p r.handle.id)
layer_errors p r cube_array base count =
    if (count == 0) || not (count % 6 == 0)
    then cube_not_multiple p r.handle.id ∷ []
    else error_if (ltb (node_layers r) (base + count)) (cube_past_end p r.handle.id)

unfoldable pub is_cube : Cubeness → Bool
is_cube no_cube = false
is_cube one_cube = true
is_cube cube_array = true

unfoldable pub cube_errors : ℕ → ResourceNode → Extent → ResourceAccess → List ViewError
unfolding is_storage is_dim_2d cubeness layer_errors
cube_errors p r size a =
    if is_storage a.type
    then cube_storage p r.handle.id ∷ []
    else if not (is_dim_2d r.dimension)
    then cube_not_2d p r.handle.id ∷ []
    else if not (size.width == size.height)
    then cube_not_square p r.handle.id ∷ []
    else layer_errors p r (cubeness a.view_dim) a.base_layer a.layer_count

unfoldable pub view_errors : ℕ → ResourceNode → Extent → ResourceAccess → List ViewError
unfolding is_cube cubeness is_buffer cube_errors
view_errors p r size a =
    if not (is_cube (cubeness a.view_dim)) || is_buffer r.kind then [] else cube_errors p r size a

unfoldable pub accesses_view_errors :
    (ℕ → ResourceNode) → (ℕ → Extent) → ℕ → List ResourceAccess → List ViewError
unfolding view_errors
accesses_view_errors by_id resolved p [] = []
accesses_view_errors by_id resolved p (a ∷ accesses) =
    view_errors p (by_id a.handle.id) (resolved a.handle.id) a
    ++ accesses_view_errors by_id resolved p accesses

unfoldable pub validate_cube_views :
    (ℕ → ResourceNode) → (ℕ → Extent) → List PassNode → List ViewError
unfolding accesses_view_errors
validate_cube_views by_id resolved [] = []
validate_cube_views by_id resolved (p ∷ passes) =
    accesses_view_errors by_id resolved p.index p.accesses
    ++ validate_cube_views by_id resolved passes

-- The number of layers that a view of cubes may cover: 6 for one cube, a positive multiple of 6 for
-- an array of them.
abbrev IsCount : Cubeness → ℕ → Type 0
IsCount no_cube count = Unit
IsCount one_cube count = count ≡ 6
IsCount cube_array count = (n : ℕ) × ((0 < n) × (count ≡ n * 6))

-- Cube views that the device accepts: of square faces of a 2d texture, in an access that is neither
-- a storage read nor a storage write, with the layers of their dimension, within the texture.
pub record IsCubeView (r : ResourceNode) (size : Extent) (a : ResourceAccess) : Type 0 where
  pub no_storage_read : a.type ≢ storage_read
  pub no_storage_write : a.type ≢ storage_write
  pub flat : r.dimension ≡ dim_2d
  pub square : size.width ≡ size.height
  pub six : a.view_dim ≡ view_cube → a.layer_count ≡ 6
  pub sixes : a.view_dim ≡ view_cube_array → (n : ℕ) × ((0 < n) × (a.layer_count ≡ n * 6))
  pub within : a.base_layer + a.layer_count ≤ r.depth_or_layers

is_cube_iff :
    (d : ViewDimension) → (is_cube (cubeness d) ≡ true) ↔ ((d ≡ view_cube) ⊎ (d ≡ view_cube_array))
unfolding is_cube cubeness
is_cube_iff d = ground arith

is_buffer_iff : (k : ResourceKind) → (is_buffer k ≡ false) ↔ (k ≡ texture)
unfolding is_buffer
is_buffer_iff k = ground arith

array_iff :
    (p : ℕ) (r : ResourceNode) (base count : ℕ)
    → (layer_errors p r cube_array base count ≡ [])
      ↔ ((0 < count) × (count % 6 ≡ 0) × (base + count ≤ node_layers r))
unfolding layer_errors
array_iff p r base count = ground arith

multiple_iff : (count : ℕ) → ((0 < count) × (count % 6 ≡ 0)) ↔ IsCount cube_array count
multiple_iff count = (
  λ h. (count / 6, (omega (arith, h.0, h.1), omega (arith, h.1))),
  λ x. (omega (arith, x.1.0, x.1.1), omega (arith, x.1.1)),
)

layer_iff :
    (p : ℕ) (r : ResourceNode) (c : Cubeness) (base count : ℕ)
    → is_cube c ≡ true
    → (layer_errors p r c base count ≡ []) ↔ (IsCount c count × (base + count ≤ node_layers r))
unfolding layer_errors is_cube
layer_iff p r no_cube base count h = absurd (cc)
layer_iff p r one_cube base count h = ground arith
layer_iff p r cube_array base count h =
    let both = array_iff p r base count in
    let times = multiple_iff count in
    (
      λ e. let (pos, even, room) = both.0 e in (times.0 (pos, even), room),
      λ x. let (pos, even) = times.1 x.0 in both.1 (pos, even, x.1),
    )

abbrev pub IsView : ResourceNode → Extent → ResourceAccess → Type 0
IsView r size a =
    ((a.view_dim ≡ view_cube) ⊎ (a.view_dim ≡ view_cube_array))
    → r.kind ≡ texture
    → IsCubeView r size a

cube_iff :
    (p : ℕ) (r : ResourceNode) (size : Extent) (a : ResourceAccess)
    → is_cube (cubeness a.view_dim) ≡ true
    → (cube_errors p r size a ≡ []) ↔ IsCubeView r size a
unfolding cube_errors node_layers
cube_iff p r size a h =
    let layers = layer_iff p r (cubeness a.view_dim) a.base_layer a.layer_count h in
    elim (Bool-cases (is_storage a.type)) [
      | inl e ↦ ground arith
      | inr e ↦ elim (Bool-cases (is_dim_2d r.dimension)) [
        | inr f ↦ ground arith
        | inl f ↦ ground (arith, layers)
      ]
    ]

IsView-iff :
    (p : ℕ) (r : ResourceNode) (size : Extent) (a : ResourceAccess)
    → (view_errors p r size a ≡ []) ↔ IsView r size a
unfolding view_errors
IsView-iff p r size a =
    let cubes = is_cube_iff a.view_dim in
    let textures = is_buffer_iff r.kind in
    elim (Bool-cases (is_cube (cubeness a.view_dim))) [
      | inr e ↦ (
        λ _ c _. let is : is_cube (cubeness a.view_dim) ≡ true = cubes.1 c in absurd (cc),
        λ _. rw (view_errors, e) refl,
      )
      | inl e ↦ elim (Bool-cases (is_buffer r.kind)) [
        | inl f ↦ (
          λ _ _ k. let is : is_buffer r.kind ≡ false = textures.1 k in absurd (cc),
          λ _. rw (view_errors, e, f) refl,
        )
        | inr f ↦
            let cube = cube_iff p r size a e in
            let opened : view_errors p r size a ≡ cube_errors p r size a =
              rw (view_errors, e, f) refl in
            (λ h _ _. cube.0 (sym opened ∙ h), λ x. opened ∙ cube.1 (x (cubes.0 e) (textures.0 f)))
      ]
    ]

accesses-IsView_iff :
    (by_id : ℕ → ResourceNode) (resolved : ℕ → Extent) (p : ℕ) (accesses : List ResourceAccess)
    → (accesses_view_errors by_id resolved p accesses ≡ [])
      ↔ All (λ a. IsView (by_id a.handle.id) (resolved a.handle.id) a) accesses
unfolding accesses_view_errors
accesses-IsView_iff by_id resolved p [] = (λ _. tt, λ _. refl)
accesses-IsView_iff by_id resolved p (a ∷ accesses) =
    let first = IsView-iff p (by_id a.handle.id) (resolved a.handle.id) a in
    let rest = accesses-IsView_iff by_id resolved p accesses in
    (
      λ e.
          let (here, later) =
            append-empty (view_errors p (by_id a.handle.id) (resolved a.handle.id) a) _ e in
          (first.0 here, rest.0 later),
      λ x. rw (first.1 x.0, rest.1 x.1) refl,
    )

-- The check of cube views pushes no error exactly when every access to a texture through a cube view or cube-array view is neither a storage read nor a storage write, is on a square 2d texture, and covers 6 layers, or for an array a positive multiple of 6, within the layers of the texture.
pub validate_cube_views_iff :
    (by_id : ℕ → ResourceNode) (resolved : ℕ → Extent) (passes : List PassNode)
    → (validate_cube_views by_id resolved passes ≡ [])
      ↔ All (λ p. All (λ a. IsView (by_id a.handle.id) (resolved a.handle.id) a) p.accesses) passes
unfolding validate_cube_views
validate_cube_views_iff by_id resolved [] = (λ _. tt, λ _. refl)
validate_cube_views_iff by_id resolved (p ∷ passes) =
    let first = accesses-IsView_iff by_id resolved p.index p.accesses in
    let rest = validate_cube_views_iff by_id resolved passes in
    (
      λ e.
          let (here, later) =
            append-empty (accesses_view_errors by_id resolved p.index p.accesses) _ e in
          (first.0 here, rest.0 later),
      λ x. rw (first.1 x.0, rest.1 x.1) refl,
    )
