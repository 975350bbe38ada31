-- ===== src/RenderGraph/Access/Overlap.antt =====
-- The conflict test of one pass, read as what it is about: a place of the texture that both accesses
-- touch.
use alpenite.Prelude.{
  ℕ, ◌+◌, ◌≤◌, ◌<◌, ◌≡◌, refl, ◌⊎◌, inl, inr, ◌↔◌, Bool, true, false, ◌&&◌, ltb, arith, Bool-cases,
}
use alpenite.RenderGraph.Access.{
  Aspect, aspect_all, stencil_only, depth_only, Part, access_is_write, is_storage_pair, range_end,
  ranges_overlap, aspects_overlap, in_pass_accesses_conflict, uint32_max,
}

-- The planes of a texture that an aspect names.
pub data Plane : Type 0 where
  depth stencil : Plane

abbrev pub has_plane : Aspect → Plane → Bool
has_plane aspect_all plane = true
has_plane stencil_only stencil = true
has_plane stencil_only depth = false
has_plane depth_only depth = true
has_plane depth_only stencil = false

-- A range whose end does not wrap, which every range of a texture's mips or layers is.
abbrev pub IsRange : ℕ → ℕ → Type 0
IsRange base count = base + count < uint32_max

abbrev pub InRange : ℕ → ℕ → ℕ → Type 0
InRange n base count = (base ≤ n) × (n < range_end base count)

base_in : (base count : ℕ) → IsRange base count → base < range_end base count
unfolding range_end
base_in base count h = ground arith

ends_overlap :
    (a b a_end b_end : ℕ)
    → a < a_end
    → b < b_end
    → ((ltb a b_end && ltb b a_end) ≡ true)
      ↔ ((k : ℕ) × ((a ≤ k) × (k < a_end)) × ((b ≤ k) × (k < b_end)))
ends_overlap a b a_end b_end ha hb = (
  λ h. elim (Bool-cases (ltb a b)) [
    | inl lt ↦ (b, ground arith, ground arith)
    | inr ge ↦ (a, ground arith, ground arith)
  ],
  λ (k, ia, ib). ground arith,
)

ranges_overlap_iff :
    (a n b m : ℕ)
    → IsRange a n
    → IsRange b m
    → (ranges_overlap a n b m ≡ true) ↔ ((k : ℕ) × InRange k a n × InRange k b m)
unfolding ranges_overlap
ranges_overlap_iff a n b m ra rb =
    ends_overlap a b (range_end a n) (range_end b m) (base_in a n ra) (base_in b m rb)

one_plane : (k : Plane) → has_plane stencil_only k ≡ true → has_plane depth_only k ≡ true → ⊥
one_plane depth s d = absurd (cc)
one_plane stencil s d = absurd (cc)

aspects_overlap_iff :
    (a b : Aspect)
    → (aspects_overlap a b ≡ true) ↔ ((k : Plane) × (has_plane a k ≡ true) × (has_plane b k ≡ true))
unfolding aspects_overlap
aspects_overlap_iff aspect_all aspect_all = (λ h. (depth, refl, refl), λ _. refl)
aspects_overlap_iff aspect_all stencil_only = (λ h. (stencil, refl, refl), λ _. refl)
aspects_overlap_iff aspect_all depth_only = (λ h. (depth, refl, refl), λ _. refl)
aspects_overlap_iff stencil_only aspect_all = (λ h. (stencil, refl, refl), λ _. refl)
aspects_overlap_iff stencil_only stencil_only = (λ h. (stencil, refl, refl), λ _. refl)
aspects_overlap_iff depth_only aspect_all = (λ h. (depth, refl, refl), λ _. refl)
aspects_overlap_iff depth_only depth_only = (λ h. (depth, refl, refl), λ _. refl)
aspects_overlap_iff stencil_only depth_only =
    (λ h. absurd (cc), λ (k, s, d). absurd (one_plane k s d))
aspects_overlap_iff depth_only stencil_only =
    (λ h. absurd (cc), λ (k, d, s). absurd (one_plane k s d))

-- Two parts of a texture meet: in a mip, a layer and a plane.
pub record Meets (a b : Part) : Type 0 where
  pub mip : (k : ℕ) × InRange k a.base_mip a.mip_count × InRange k b.base_mip b.mip_count
  pub layer : (k : ℕ) × InRange k a.base_layer a.layer_count × InRange k b.base_layer b.layer_count
  pub plane : (k : Plane) × (has_plane a.aspect k ≡ true) × (has_plane b.aspect k ≡ true)

-- Both accesses meet, one of them writes, and they are not the read and the write of a storage binding.
pub record IsClash (a b : Part) : Type 0 where
  pub meets : Meets a b
  pub writes : (access_is_write a.type ≡ true) ⊎ (access_is_write b.type ≡ true)
  pub unpaired : is_storage_pair a.type b.type ≡ false

-- No range of the part wraps.
pub record IsProper (a : Part) : Type 0 where
  pub mips : IsRange a.base_mip a.mip_count
  pub layers : IsRange a.base_layer a.layer_count

conflict_parts :
    (a b : Part)
    → in_pass_accesses_conflict a b ≡ true
    → (ranges_overlap a.base_mip a.mip_count b.base_mip b.mip_count ≡ true)
      × (ranges_overlap a.base_layer a.layer_count b.base_layer b.layer_count ≡ true)
      × (aspects_overlap a.aspect b.aspect ≡ true)
      × ((access_is_write a.type ≡ true) ⊎ (access_is_write b.type ≡ true))
      × (is_storage_pair a.type b.type ≡ false)
unfolding in_pass_accesses_conflict
conflict_parts a b h = (ground arith, ground arith, ground arith, ground arith, ground arith)

conflict_whole :
    (a b : Part)
    → ranges_overlap a.base_mip a.mip_count b.base_mip b.mip_count ≡ true
    → ranges_overlap a.base_layer a.layer_count b.base_layer b.layer_count ≡ true
    → aspects_overlap a.aspect b.aspect ≡ true
    → (access_is_write a.type ≡ true) ⊎ (access_is_write b.type ≡ true)
    → is_storage_pair a.type b.type ≡ false
    → in_pass_accesses_conflict a b ≡ true
unfolding in_pass_accesses_conflict
conflict_whole a b m l p w u = ground arith

-- For two parts whose ranges do not wrap at 32 bits (a count of 0 being all that remains), the test reports a conflict if and only if some mip, layer and plane belongs to both parts, one of the accesses writes, and they are not a storage read with a storage write.
pub conflict_iff :
    (a b : Part) → IsProper a → IsProper b → (in_pass_accesses_conflict a b ≡ true) ↔ IsClash a b
conflict_iff a b pa pb = (
  λ h.
      let (m, l, p, w, u) = conflict_parts a b h in
      record {
        meets = record {
          mip = (ranges_overlap_iff _ _ _ _ pa.mips pb.mips).0 m;
          layer = (ranges_overlap_iff _ _ _ _ pa.layers pb.layers).0 l;
          plane = (aspects_overlap_iff a.aspect b.aspect).0 p;
        };
        writes = w;
        unpaired = u;
      },
  λ c.
      conflict_whole a b ((ranges_overlap_iff _ _ _ _ pa.mips pb.mips).1 c.meets.mip)
        ((ranges_overlap_iff _ _ _ _ pa.layers pb.layers).1 c.meets.layer)
        ((aspects_overlap_iff a.aspect b.aspect).1 c.meets.plane) c.writes c.unpaired,
)
