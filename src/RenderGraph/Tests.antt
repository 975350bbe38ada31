-- ===== src/RenderGraph/Tests.antt =====
-- Concrete graphs for the theorems on the render graph.
use alpenite.Prelude.{
  ℕ, ◌≡◌, refl, ◌≢◌, inl, Bool, false, none, some, List, [], ◌∷◌, ◌==◌, arith, update, ℕ_discrete,
  ◌≤◌, ◌<◌, map,
}
use alpenite.RenderGraph.Access.{
  ResourceHandle, texture, AccessType, sampled, color_attachment, ResourceAccess, load_undefined,
  load_clear, store_undefined, store_store, aspect_all, view_undefined, LoadOp, access_is_write,
}
use alpenite.RenderGraph.Nodes.{PassNode, graphics, dim_2d}
use alpenite.RenderGraph.Resources.{ResourceNode, Extent, absolute, is_external}
use alpenite.RenderGraph.Depends.{Has, DependsOn, IsBackward}
use alpenite.RenderGraph.Sweep.Defs.{sweep_resource_versions}
use alpenite.RenderGraph.Sweep.Order.{IsNumbered, sweep-IsBackward}
use alpenite.RenderGraph.Sweep.Conflicts.{Uses, IsConflict, conflict-DependsOn}
use alpenite.RenderGraph.Topo.Defs.{Dfs, init, topo_sort}
use alpenite.RenderGraph.Topo.Order.{IsTopoOrder, IsRoot, topo_sort_lem}
use alpenite.RenderGraph.Schedule.{sink_roots, schedule, schedule_lem, schedule-conflict}
use alpenite.RenderGraph.Lifetimes.{lifetimes}
use alpenite.RenderGraph.Lifetimes.Touch.{Covers}
use alpenite.RenderGraph.Lifetimes.Cover.{lifetimes-order, lifetimes-Covers}
use alpenite.RenderGraph.Alias.Defs.{Placed, assign_slots}
use alpenite.RenderGraph.Alias.Slots.{IsAlike}
use alpenite.RenderGraph.Alias.Disjoint.{
  Accesses, sorted_eligible, assign_slots-total, slots-Apart, slots-exclusive,
}
use alpenite.RenderGraph.Access.{storage_write, Part, in_pass_accesses_conflict}
use alpenite.RenderGraph.Access.Overlap.{IsClash, IsProper, conflict_iff}
use alpenite.RenderGraph.Reads.Defs.{read_errors, externals, pass_writes, writes}
use alpenite.RenderGraph.Reads.Sound.{read_errors-produced, read_errors-layers}
use alpenite.Prelude.{true, ◌||◌, ◌↔◌, ◌≤◌, ◌++◌}
use alpenite.RenderGraph.Resources.{TexSignature}
use alpenite.RenderGraph.PersistentPool.Defs.{
  ResourceId, Entry, PersistentPool, find, touch_pool, new_entry, slot,
}
use alpenite.RenderGraph.PersistentPool.Rotation.{touch_pool_idempotent, touch_pool-slot}
use alpenite.RenderGraph.PersistentPool.Eviction.{idle, In, idle_iff}
use alpenite.Prelude.{contains, IsDistinct}
use alpenite.RenderGraph.TransientPool.Defs.{
  TransientPool, new_texture, acquire_texture, acquire_buffer,
}
use alpenite.RenderGraph.TransientPool.Claims.{objects}
use alpenite.RenderGraph.TransientPool.Exclusive.{
  IsExclusive, acquire_texture-IsExclusive, acquire_buffer-IsExclusive,
}

abbrev handle : ℕ → ResourceHandle
handle n = record { id = n; kind = texture; generation = 1 }

abbrev access : AccessType → LoadOp → ℕ → ResourceAccess
access t load n = record {
  handle = handle n;
  buf_offset = 0;
  buf_size = 0;
  load_op = load;
  store_op = store_store;
  stencil_load_op = load_undefined;
  stencil_store_op = store_undefined;
  view_dim = view_undefined;
  view_aspect = aspect_all;
  base_layer = 0;
  layer_count = 1;
  type = t;
  color_index = 0;
  buf_full_define = false;
  base_mip = 0;
  mip_count = 1;
}

abbrev draws : ℕ → ResourceAccess
draws = access color_attachment load_clear

abbrev reads : ℕ → ResourceAccess
reads = access sampled load_undefined

abbrev pass : ℕ → List ResourceAccess → PassNode
pass i accesses = record {
  kind = graphics;
  index = i;
  accesses = accesses;
  init_targets = [];
  force_keep = false;
  skip_init = false;
}

-- Draw 1, make 2 of it, make 3 of that, and the target 4 of 3. Pass 1 is not needed.
abbrev first_pass : PassNode
first_pass = pass 0 (draws 1 ∷ [])

abbrev dead_pass : PassNode
dead_pass = pass 1 (draws 5 ∷ [])

abbrev blur_pass : PassNode
blur_pass = pass 2 (reads 1 ∷ draws 2 ∷ [])

abbrev grade_pass : PassNode
grade_pass = pass 3 (reads 2 ∷ draws 3 ∷ [])

abbrev present_pass : PassNode
present_pass = pass 4 (reads 3 ∷ draws 4 ∷ [])

abbrev frame : List PassNode
frame = first_pass ∷ dead_pass ∷ blur_pass ∷ grade_pass ∷ present_pass ∷ []

abbrev is_target : ℕ → Bool
is_target n = n == 4

abbrev node : ℕ → ResourceNode
node n = record {
  handle = handle n;
  name = n;
  kind = texture;
  imported = n == 4;
  persistent = false;
  history = false;
  history_index = 0;
  history_hash = 0;
  dimension = dim_2d;
  format = 18;
  size_kind = absolute;
  relative_to = handle 0;
  width = 64;
  height = 64;
  depth_or_layers = 1;
  mip_level_count = 1;
  sample_count = 1;
  buffer_size = 0;
}

abbrev nodes : List ResourceNode
nodes = node 1 ∷ node 2 ∷ node 3 ∷ node 4 ∷ []

-- The schedule of the frame: its passes without pass 1.
abbrev result : Dfs
unfolding schedule init
result = elim (schedule nodes frame) [ none ↦ init | some t ↦ t ]

frame_order : result.order ≡ 0 ∷ 2 ∷ 3 ∷ 4 ∷ []
unfolding schedule init update ℕ_discrete
frame_order = refl

numbered : IsNumbered 0 frame
numbered = (refl, (refl, (refl, (refl, (refl, tt)))))

draws_1 : Uses first_pass (draws 1)
draws_1 = record { runs = refl; before = []; after = []; split = refl }

reads_1 : Uses blur_pass (reads 1)
reads_1 = record { runs = refl; before = []; after = draws 2 ∷ []; split = refl }

hazard : IsConflict (draws 1) (reads 1)
unfolding access_is_write
hazard = record { same = refl; valid = λ e. absurd (omega (arith, e)); writes = inl refl }

conflict-DependsOn_example : DependsOn (sweep_resource_versions frame) 2 0
conflict-DependsOn_example =
    conflict-DependsOn [] (dead_pass ∷ []) (grade_pass ∷ present_pass ∷ []) first_pass blur_pass
      (draws 1) (reads 1) numbered draws_1 reads_1 hazard

sweep-IsBackward_example : IsBackward (sweep_resource_versions frame)
sweep-IsBackward_example = sweep-IsBackward frame numbered

topo_sort_lem_example :
    (t : Dfs) × (topo_sort 5 (sweep_resource_versions frame) is_target frame ≡ some t)
    × IsTopoOrder (sweep_resource_versions frame) (IsRoot is_target frame) t
topo_sort_lem_example =
    topo_sort_lem 5 (sweep_resource_versions frame) is_target frame
      (sweep-IsBackward frame numbered)
      (omega arith, (omega arith, (omega arith, (omega arith, (omega arith, tt)))))

schedule_lem_example :
    (t : Dfs) × (schedule nodes frame ≡ some t)
    × IsTopoOrder (sweep_resource_versions frame) (IsRoot (sink_roots nodes (λ _. false)) frame) t
schedule_lem_example = schedule_lem nodes frame numbered

schedule-conflict_example : Has (0 ∷ []) 0
unfolding schedule init update ℕ_discrete
schedule-conflict_example =
    schedule-conflict nodes [] (dead_pass ∷ []) (grade_pass ∷ present_pass ∷ []) first_pass
      blur_pass (draws 1) (reads 1) result (0 ∷ []) (3 ∷ 4 ∷ []) numbered draws_1 reads_1 hazard
      refl refl

-- The passes that are left, in the order of the schedule.
abbrev live : List PassNode
live = first_pass ∷ blur_pass ∷ grade_pass ∷ present_pass ∷ []

abbrev size_of : ℕ → Extent
size_of n = record { width = 64; height = 64; depth_or_layers = 1 }

abbrev stored : ℕ → Bool
stored _ = false

abbrev member : ℕ → ℕ → ℕ → ℕ → Placed
unfolding lifetimes assign_slots update ℕ_discrete
member n first last slot = record {
  node = record {
    id = n;
    name = n;
    kind = texture;
    first_use = first;
    last_use = last;
    signature = record {
      size = size_of n;
      format = 18;
      dim = dim_2d;
      mip_level_count = 1;
      sample_count = 1;
    };
    buffer_size = 0;
    tex_usage = (lifetimes node live n).tex_usage;
    buf_usage = [];
  };
  slot = slot;
}

live-lifetimes :
    assign_slots size_of (lifetimes node live) stored nodes
    ≡ some (member 1 0 1 0 ∷ member 2 1 2 1 ∷ member 3 2 3 0 ∷ [])
unfolding lifetimes assign_slots update ℕ_discrete
live-lifetimes = refl

lifetimes-order_example :
    (0 ≤ (lifetimes node live 1).last_use) × ((lifetimes node live 1).last_use < 4)
unfolding lifetimes update ℕ_discrete
lifetimes-order_example = lifetimes-order node live 1 0 refl

lifetimes-Covers_example : Covers 1 (lifetimes node live 1)
unfolding is_external
lifetimes-Covers_example =
    lifetimes-Covers node (first_pass ∷ []) blur_pass (grade_pass ∷ present_pass ∷ []) [] (reads 1)
      (draws 2 ∷ []) refl refl

assign_slots-total_example :
    (ps : List Placed) × (assign_slots size_of (lifetimes node live) stored nodes ≡ some ps)
    × (map (λ (p : Placed). p.node) ps ≡ sorted_eligible size_of node stored live nodes)
assign_slots-total_example = assign_slots-total size_of node stored live nodes

slots-Apart_example : IsAlike (member 1 0 1 0).node (member 3 2 3 0).node × (1 < 2)
unfolding member
slots-Apart_example =
    slots-Apart size_of node stored live nodes [] (member 2 1 2 1 ∷ []) [] (member 1 0 1 0)
      (member 3 2 3 0) live-lifetimes refl

reads_of_blur : Accesses node blur_pass 1
unfolding is_external
reads_of_blur = record {
  before = [];
  access = reads 1;
  after = draws 2 ∷ [];
  split = refl;
  names = refl;
  owned = refl;
}

draws_of_blur : Accesses node blur_pass 2
unfolding is_external
draws_of_blur = record {
  before = reads 1 ∷ [];
  access = draws 2;
  after = [];
  split = refl;
  names = refl;
  owned = refl;
}

slots-exclusive_example : (member 1 0 1 0).slot ≢ (member 2 1 2 1).slot
unfolding member
slots-exclusive_example =
    slots-exclusive size_of node stored nodes (first_pass ∷ []) blur_pass
      (grade_pass ∷ present_pass ∷ []) [] [] (member 3 2 3 0 ∷ []) (member 1 0 1 0) (member 2 1 2 1)
      live-lifetimes reads_of_blur draws_of_blur

no_read_errors : read_errors nodes frame live ≡ []
unfolding read_errors update ℕ_discrete
no_read_errors = refl

not_external : externals nodes (λ _. false) 1 ≡ false
unfolding externals update ℕ_discrete
not_external = refl

read_errors-produced_example : (pass_writes (first_pass ∷ []) 1 || writes [] 1) ≡ true
unfolding access_is_write
read_errors-produced_example =
    read_errors-produced nodes frame (first_pass ∷ []) blur_pass (grade_pass ∷ present_pass ∷ []) []
      (reads 1) (draws 2 ∷ []) no_read_errors refl refl (λ e. absurd (omega (arith, e)))
      not_external

-- The frame's resources, and the older layer of a history, which nothing writes.
abbrev old_layer : ResourceNode
old_layer = record (node 5) { persistent = true; history = true; history_index = 1 }

no_layer_errors : read_errors (nodes ++ old_layer ∷ []) frame live ≡ []
unfolding read_errors update ℕ_discrete
no_layer_errors = refl

read_errors-layers_example : (draws 1).handle.id ≢ old_layer.handle.id
unfolding access_is_write
read_errors-layers_example =
    read_errors-layers nodes [] old_layer frame [] first_pass
      (blur_pass ∷ grade_pass ∷ present_pass ∷ []) [] (draws 1) [] no_layer_errors refl tt refl
      (λ e. absurd (omega (arith, e))) refl

abbrev part : AccessType → ℕ → Part
part t mip = record {
  type = t;
  base_mip = mip;
  mip_count = 2;
  base_layer = 0;
  layer_count = 0;
  aspect = aspect_all;
}

part-IsProper : (t : AccessType) → IsProper (part t 1)
part-IsProper t = record { mips = omega arith; layers = omega arith }

conflict_iff_example :
    (in_pass_accesses_conflict (part sampled 1) (part storage_write 1) ≡ true)
    ↔ IsClash (part sampled 1) (part storage_write 1)
conflict_iff_example =
    conflict_iff (part sampled 1) (part storage_write 1) (part-IsProper sampled)
      (part-IsProper storage_write)

abbrev blank : TexSignature
blank = record { size = size_of 0; format = 0; dim = dim_2d; mip_level_count = 1; sample_count = 1 }

abbrev exposure : ResourceId
exposure = record { value = 77; name = 4096 }

abbrev entry : Entry
unfolding new_entry
entry = new_entry blank exposure 3 2 0 texture

-- The pool a frame after the entry was made.
abbrev next_frame : PersistentPool
unfolding entry
next_frame = record { entries = entry ∷ []; evict_clock = 4 }

touch_pool_idempotent_example :
    touch_pool blank exposure 2 0 texture (touch_pool blank exposure 2 0 texture next_frame)
    ≡ touch_pool blank exposure 2 0 texture next_frame
touch_pool_idempotent_example = touch_pool_idempotent blank exposure 2 0 texture next_frame

entry_found : find exposure next_frame.entries ≡ some entry
unfolding find next_frame entry new_entry
entry_found = refl

touch_pool-slot_example :
    (f : Entry) × (find exposure (touch_pool blank exposure 2 0 texture next_frame).entries
      ≡ some f)
    × (slot f 1 ≡ slot entry 0)
    × (slot f 0 ≢ slot f 1)
    × (f.prev_touched ≡ entry.last_touched)
unfolding next_frame entry new_entry
touch_pool-slot_example =
    touch_pool-slot blank exposure 0 texture next_frame entry entry_found refl (omega arith)
      (λ e. absurd (omega (arith, e)))

idle_iff_example :
    In entry (idle 5 (record { entries = entry ∷ []; evict_clock = 3 })).entries ↔ (5 ≤ 4)
unfolding entry new_entry
idle_iff_example =
    idle_iff 5 (record { entries = entry ∷ []; evict_clock = 3 }) entry (inl refl) refl
      (omega arith)

-- A pool with one texture, object 500, in use.
abbrev transients : TransientPool
unfolding new_texture
transients = record {
  claims = new_texture 500 blank [] 4096 3 ∷ [];
  frame = 3;
  created_this_frame = 1;
}

new_to_transients : contains ℕ_discrete (objects transients.claims) 501 ≡ false
unfolding contains ℕ_discrete transients new_texture
new_to_transients = refl

transients-IsDistinct : IsDistinct ℕ_discrete (objects transients.claims)
unfolding contains transients new_texture
transients-IsDistinct = (refl, tt)

acquire_texture-IsExclusive_example :
    IsExclusive transients (acquire_texture 501 blank [] 4096 transients)
acquire_texture-IsExclusive_example =
    acquire_texture-IsExclusive 501 blank [] 4096 transients new_to_transients transients-IsDistinct

acquire_buffer-IsExclusive_example :
    IsExclusive transients (acquire_buffer 501 blank 64 [] 4096 transients)
acquire_buffer-IsExclusive_example =
    acquire_buffer-IsExclusive 501 blank 64 [] 4096 transients new_to_transients
      transients-IsDistinct
