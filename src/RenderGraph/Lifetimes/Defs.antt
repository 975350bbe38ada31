-- ===== src/RenderGraph/Lifetimes/Defs.antt =====
-- The walk as the code makes it.
use alpenite.Prelude.{
  ℕ, suc, Bool, false, ◌||◌, Option, none, some, List, [], ◌∷◌, ◌++◌, update, if◌then◌else◌,
}
use alpenite.RenderGraph.Access.{
  ResourceAccess, ResourceKind, TextureUsage, BufferUsage, access_semantics, access_is_write,
  access_defines, is_buffer, uint32_max,
}
use alpenite.RenderGraph.Nodes.{PassNode}
use alpenite.RenderGraph.Resources.{ResourceNode, is_external}

-- What the walk knows of a resource. `none` stands for a first use of
-- `kNoPass`; the last use means something once there is a first.
pub record Life : Type 0 where
  pub first_use : Option ℕ
  pub last_use : ℕ
  pub has_writer : Bool
  pub first_defines : Bool
  pub live_access_count : ℕ
  pub sole_access : Option ResourceAccess
  pub tex_usage : List TextureUsage
  pub buf_usage : List BufferUsage

unfoldable pub no_life : Life
no_life = record {
  first_use = none;
  last_use = uint32_max;
  has_writer = false;
  first_defines = false;
  live_access_count = 0;
  sole_access = none;
  tex_usage = [];
  buf_usage = [];
}

-- The first touch opens the lifetime, and each touch moves its end.
unfoldable pub extend_life : ℕ → ResourceAccess → Life → Life
unfolding access_defines access_is_write
extend_life i a l = elim l.first_use [
  | none ↦ record l {
    first_use = some i;
    first_defines = access_defines a;
    last_use = i;
    has_writer = l.has_writer || access_is_write a.type;
  }
  | some f ↦ record l { last_use = i; has_writer = l.has_writer || access_is_write a.type }
]

unfoldable pub add_usage : ResourceKind → ResourceAccess → Life → Life
unfolding is_buffer access_semantics
add_usage kind a l =
    if is_buffer kind
    then record l { buf_usage = l.buf_usage ++ (access_semantics a.type).buf_usage }
    else record l { tex_usage = l.tex_usage ++ (access_semantics a.type).tex_usage }

unfoldable pub touch : ResourceNode → ℕ → ResourceAccess → Life → Life
unfolding extend_life add_usage is_external
touch r i a l =
    let counted : Life = record l {
      live_access_count = suc l.live_access_count;
      sole_access = some a;
    } in
    let lived : Life = if is_external r then counted else extend_life i a counted in
    add_usage r.kind a lived

unfoldable pub gather_access : (ℕ → ResourceNode) → ℕ → ResourceAccess → (ℕ → Life) → ℕ → Life
unfolding touch
gather_access by_id i a u = update u a.handle.id (touch (by_id a.handle.id) i a (u a.handle.id))

unfoldable pub gather_accesses :
    (ℕ → ResourceNode) → ℕ → List ResourceAccess → (ℕ → Life) → ℕ → Life
unfolding gather_access
gather_accesses by_id i [] u = u
gather_accesses by_id i (a ∷ accesses) u =
    gather_accesses by_id i accesses (gather_access by_id i a u)

unfoldable pub gather_passes : (ℕ → ResourceNode) → ℕ → List PassNode → (ℕ → Life) → ℕ → Life
unfolding gather_accesses
gather_passes by_id i [] u = u
gather_passes by_id i (p ∷ passes) u =
    gather_passes by_id (suc i) passes (gather_accesses by_id i p.accesses u)

unfoldable pub lifetimes : (ℕ → ResourceNode) → List PassNode → ℕ → Life
unfolding gather_passes no_life
lifetimes by_id passes = gather_passes by_id 0 passes (λ _. no_life)
