-- ===== src/RenderGraph/Checks/Tests.antt =====
-- A pass that draws into a cube and reads a part of a buffer, and one with a resolve target.
use alpenite.Prelude.{
  ℕ, ◌^◌, ◌<◌, ◌≡◌, ◌↔◌, refl, arith, false, none, [], ◌∷◌, ◌==◌, if◌then◌else◌, All,
}
use alpenite.RenderGraph.Access.{
  ResourceHandle, texture, buffer, ResourceKind, AccessType, sampled, color_attachment,
  resolve_attachment, depth_stencil_read_only, uniform, copy_src, ResourceAccess, load_undefined,
  load_clear, store_undefined, store_store, aspect_all, view_undefined, view_cube, is_buffer,
}
use alpenite.RenderGraph.Nodes.{PassNode, graphics, dim_2d}
use alpenite.RenderGraph.Resources.{ResourceNode, Extent, absolute, node_layers}
use alpenite.RenderGraph.Checks.Ranges.{
  validate_access_ranges, IsRange, validate_access_ranges_iff, expand_access, IsCovering,
  range_errors, is_bind_access, expand_access-IsCovering, wrapped_range,
}
use alpenite.RenderGraph.Checks.Views.{validate_cube_views, IsView, validate_cube_views_iff}
use alpenite.RenderGraph.Checks.Attachments.{
  FormatName, depth24_plus, other_format, render_pass_errors,
}
use alpenite.RenderGraph.Checks.Declared.{is_color, is_resolve, is_depth, last_of, attachments}
use alpenite.RenderGraph.Checks.Targets.{IsRenderPass, render_pass_errors_sound}

abbrev handle : ResourceKind → ℕ → ResourceHandle
handle k n = record { id = n; kind = k; generation = 1 }

abbrev node : ResourceKind → ℕ → ℕ → ℕ → ResourceNode
node k n layers samples = record {
  handle = handle k n;
  name = n;
  kind = k;
  imported = false;
  persistent = false;
  history = false;
  history_index = 0;
  history_hash = 0;
  dimension = dim_2d;
  format = 18;
  size_kind = absolute;
  relative_to = handle texture 0;
  width = 64;
  height = 64;
  depth_or_layers = layers;
  mip_level_count = 4;
  sample_count = samples;
  buffer_size = 4096;
}

abbrev access : ResourceKind → ℕ → AccessType → ℕ → ℕ → ResourceAccess
access k n t layers bytes = record {
  handle = handle k n;
  buf_offset = 256;
  buf_size = bytes;
  load_op = load_clear;
  store_op = store_store;
  stencil_load_op = load_undefined;
  stencil_store_op = store_undefined;
  view_dim = view_undefined;
  view_aspect = aspect_all;
  base_layer = 0;
  layer_count = layers;
  type = t;
  color_index = 0;
  buf_full_define = false;
  base_mip = 0;
  mip_count = 1;
}

-- 1 is multisampled, 2 a cube, 3 a single-sampled target, 5 a multisampled depth texture, and the
-- rest are buffers.
abbrev by_id : ℕ → ResourceNode
by_id n =
    if n == 1
    then node texture 1 1 4
    else if n == 2
    then node texture 2 6 1
    else if n == 3
    then node texture 3 1 1
    else if n == 5
    then record (node texture 5 1 4) { format = 40 }
    else node buffer n 1 1

abbrev resolved : ℕ → Extent
resolved n = record { width = 64; height = 64; depth_or_layers = 1 }

abbrev formats : ℕ → FormatName
formats n = if n == 40 then depth24_plus else other_format

abbrev draw_pass : PassNode
draw_pass = record {
  kind = graphics;
  index = 0;
  accesses =
      access texture 1 color_attachment 1 0
      ∷ access texture 3 resolve_attachment 1 0
      ∷ access texture 5 depth_stencil_read_only 1 0
      ∷ record (access texture 2 sampled 6 0) { view_dim = view_cube }
      ∷ access buffer 4 uniform 0 512
      ∷ [];
  init_targets = [];
  force_keep = false;
  skip_init = false;
}

no_range_error : validate_access_ranges by_id (draw_pass ∷ []) ≡ []
unfolding validate_access_ranges node_layers
no_range_error = refl

no_view_error : validate_cube_views by_id resolved (draw_pass ∷ []) ≡ []
unfolding validate_cube_views node_layers
no_view_error = refl

no_pass_error : render_pass_errors formats by_id resolved draw_pass ≡ []
unfolding render_pass_errors
no_pass_error = refl

validate_access_ranges_iff_example :
    (validate_access_ranges by_id (draw_pass ∷ []) ≡ [])
    ↔ All (λ p. All (λ a. IsRange (by_id a.handle.id) a) p.accesses) (draw_pass ∷ [])
validate_access_ranges_iff_example =
    validate_access_ranges_iff by_id (draw_pass ∷ [])
      (((omega arith), ((omega arith), ((omega arith), ((omega arith), ((omega arith), tt))))), tt)

validate_cube_views_iff_example :
    (validate_cube_views by_id resolved (draw_pass ∷ []) ≡ [])
    ↔ All
        (λ p. All (λ a. IsView (by_id a.handle.id) (resolved a.handle.id) a) p.accesses)
        (draw_pass ∷ [])
validate_cube_views_iff_example = validate_cube_views_iff by_id resolved (draw_pass ∷ [])

render_pass_errors_sound_example : IsRenderPass formats (record {
  color = attachments by_id resolved is_color draw_pass.accesses;
  resolve = attachments by_id resolved is_resolve draw_pass.accesses;
  depth = last_of (attachments by_id resolved is_depth draw_pass.accesses) none;
})
render_pass_errors_sound_example =
    render_pass_errors_sound formats by_id resolved draw_pass (omega arith) (omega arith)
      no_pass_error

abbrev all_mips : ResourceAccess
all_mips = record (access texture 2 sampled 0 0) { base_mip = 1; mip_count = 0 }

all_mips_fit :
    range_errors 0 (node texture 2 6 1) (expand_access (node texture 2 6 1) all_mips) ≡ []
unfolding range_errors expand_access node_layers
all_mips_fit = refl

layers_small : node_layers (node texture 2 6 1) < 2 ^ 16
unfolding node_layers
layers_small = omega arith

expand_access-IsCovering_example :
    IsCovering (node texture 2 6 1) (expand_access (node texture 2 6 1) all_mips)
unfolding is_buffer
expand_access-IsCovering_example =
    expand_access-IsCovering (node texture 2 6 1) all_mips 0 refl (omega arith) layers_small
      all_mips_fit

-- A copy of bytes that starts 256 before the end of the address space.
abbrev far_access : ResourceAccess
far_access = record (access buffer 4 copy_src 0 512) { buf_offset = 18446744073709551360 }

wrapped_range_example : range_errors 0 (node buffer 4 1 1) far_access ≡ []
unfolding is_buffer is_bind_access
wrapped_range_example =
    wrapped_range 0 (node buffer 4 1 1) far_access refl refl (omega arith) (omega arith)
      (omega arith)
