-- ===== src/RenderGraph/Record/Tests.antt =====
-- A pass that draws into a texture, resolves it, and reads another one and a buffer.
use alpenite.Prelude.{ℕ, ◌≡◌, refl, arith, true, false, Option, none, some, List, [], ◌∷◌}
use alpenite.RenderGraph.Access.{
  ResourceHandle, ResourceKind, texture, buffer, sampled, uniform, load_clear, load_undefined,
  store_store, store_undefined,
}
use alpenite.RenderGraph.Nodes.{PassNode, graphics}
use alpenite.RenderGraph.Record.Defs.{Graph, is_transfer, Ops, Subresource, one_view}
use alpenite.RenderGraph.Record.Session.{
  Call, call_color, call_resolve, call_view, call_bind, call_storage_read_write_texture,
  call_force_keep, record_calls,
}
use alpenite.RenderGraph.Record.Clean.{IsClean}
use alpenite.RenderGraph.Record.Kept.{record_calls-IsClean}

abbrev handle : ResourceKind → ℕ → ResourceHandle
handle k n = record { id = n; kind = k; generation = 7 }

abbrev graph : Graph
graph = record { asserts = true; next_resource_id = 9; generation = 7; nodes = λ _. none }

abbrev new_pass : PassNode
new_pass = record {
  kind = graphics;
  index = 0;
  accesses = [];
  init_targets = [];
  force_keep = false;
  skip_init = false;
}

abbrev clear : Ops
clear = record {
  load = load_clear;
  store = store_store;
  stencil_load = load_undefined;
  stencil_store = store_undefined;
}

abbrev origin : Subresource
origin = record { mip = 0; layer = 0 }

abbrev calls : List Call
calls =
    call_color (handle texture 1) 0 clear origin
    ∷ call_resolve (handle texture 1) (handle texture 2) origin
    ∷ call_view sampled (handle texture 3) one_view
    ∷ call_storage_read_write_texture (handle texture 4) one_view
    ∷ call_bind uniform (handle buffer 5) (record { offset = 0; size = 0 })
    ∷ call_force_keep
    ∷ []

-- The pass as the calls leave it.
abbrev recorded : Option PassNode → PassNode
recorded none = new_pass
recorded (some p) = p

abbrev final_pass : PassNode
final_pass = recorded (record_calls graph new_pass calls)

calls_recorded : record_calls graph new_pass calls ≡ some final_pass
unfolding record_calls
calls_recorded = refl

record_calls-IsClean_example : IsClean final_pass.accesses
unfolding is_transfer
record_calls-IsClean_example =
    record_calls-IsClean graph new_pass final_pass calls refl
      (
        (omega arith, omega arith),
        (
          (omega arith, omega arith),
          (
            (omega arith, omega arith, omega arith, omega arith),
            ((omega arith, omega arith, omega arith, omega arith), (tt, (tt, tt))),
          ),
        ),
      )
      refl tt calls_recorded

-- Drawing into a texture that the pass samples ends the program.
clash_refused :
    record_calls graph new_pass (
      call_color (handle texture 1) 0 clear origin
      ∷ call_view sampled (handle texture 1) one_view
      ∷ [])
    ≡ none
unfolding record_calls
clash_refused = refl
