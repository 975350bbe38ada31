-- ===== src/RenderGraph/Alias/Defs.antt =====
-- The assignment of slots as the code makes it.
use alpenite.Prelude.{
  ℕ, zero, suc, Bool, true, false, not, ◌&&◌, ◌||◌, Option, none, some, List, [], ◌∷◌, ◌++◌, ltb,
  ◌==◌, if◌then◌else◌, length,
}
use alpenite.RenderGraph.Access.{ResourceKind, TextureUsage, BufferUsage, is_buffer}
use alpenite.RenderGraph.Resources.{
  ResourceNode, Extent, TexSignature, is_external, same_kind, sig_eq, tex_signature,
}
use alpenite.RenderGraph.Lifetimes.{Life}

-- What phase 4 reads of an eligible resource, `elig[i]`.
pub record Eligible : Type 0 where
  pub id : ℕ
  pub name : ℕ
  pub kind : ResourceKind
  pub first_use : ℕ
  pub last_use : ℕ
  pub signature : TexSignature
  pub buffer_size : ℕ
  pub tex_usage : List TextureUsage
  pub buf_usage : List BufferUsage

-- A slot. A texture slot compares its signature and a buffer slot its size; the GPU objects that
-- realize() fills in are left out.
pub record PhysicalResource : Type 0 where
  pub kind : ResourceKind
  pub free_from : ℕ
  pub identity : ℕ
  pub signature : TexSignature
  pub buffer_size : ℕ
  pub tex_usage : List TextureUsage
  pub buf_usage : List BufferUsage

-- The filter on the nodes: `none` is a node that keeps an object of its own.
unfoldable pub is_plain_texture : ResourceNode → Extent → Bool
is_plain_texture r resolved =
    (r.mip_level_count == 1) && (r.sample_count == 1) && not (ltb 1 resolved.depth_or_layers)

unfoldable pub is_eligible : ResourceNode → Extent → Life → Bool → Bool
unfolding is_external is_buffer is_plain_texture
is_eligible r resolved l transient_attachment =
    if is_external r || not l.has_writer || not l.first_defines || transient_attachment
    then false
    else if not (is_buffer r.kind) && not (is_plain_texture r resolved)
    then false
    else true

unfoldable pub as_eligible : ResourceNode → Extent → Life → ℕ → Eligible
unfolding tex_signature
as_eligible r resolved l first = record {
  id = r.handle.id;
  name = r.name;
  kind = r.kind;
  first_use = first;
  last_use = l.last_use;
  signature = tex_signature r resolved;
  buffer_size = r.buffer_size;
  tex_usage = l.tex_usage;
  buf_usage = l.buf_usage;
}

unfoldable pub eligible : ResourceNode → Extent → Life → Bool → Option Eligible
unfolding is_eligible as_eligible
eligible r resolved l transient_attachment = elim l.first_use [
  | none ↦ none
  | some first ↦
      if is_eligible r resolved l transient_attachment
      then some (as_eligible r resolved l first)
      else none
]

unfoldable pub gather_eligible :
    (ℕ → Extent) → (ℕ → Life) → (ℕ → Bool) → List ResourceNode → List Eligible
unfolding eligible
gather_eligible resolved u transient [] = []
gather_eligible resolved u transient (r ∷ resources) =
    elim (eligible r (resolved r.handle.id) (u r.handle.id) (transient r.handle.id)) [
      | none ↦ gather_eligible resolved u transient resources
      | some e ↦ e ∷ gather_eligible resolved u transient resources
    ]

-- `std::stable_sort` by the first use: an insertion that passes what is not later.
unfoldable pub insert_by_first_use : Eligible → List Eligible → List Eligible
insert_by_first_use e [] = e ∷ []
insert_by_first_use e (x ∷ xs) =
    let rest = insert_by_first_use e xs in
    if ltb x.first_use e.first_use then x ∷ rest else e ∷ x ∷ xs

unfoldable pub stable_sort : List Eligible → List Eligible
unfolding insert_by_first_use
stable_sort [] = []
stable_sort (e ∷ es) = insert_by_first_use e (stable_sort es)

-- A slot of the resource's kind and signature whose occupant is dead before the resource lives.
unfoldable pub fits : PhysicalResource → Eligible → Bool
unfolding same_kind is_buffer sig_eq
fits ph r =
    if not (same_kind ph.kind r.kind)
    then false
    else (if is_buffer r.kind
        then ph.buffer_size == r.buffer_size
        else sig_eq ph.signature r.signature)
      && ltb ph.free_from r.first_use

unfoldable pub find_slot : List PhysicalResource → Eligible → Option ℕ
unfolding fits
find_slot [] r = none
find_slot (ph ∷ slots) r =
    let rest = find_slot slots r in
    if fits ph r then some 0 else elim rest [ none ↦ none | some k ↦ some (suc k) ]

-- The resource moves in: the usage of the slot grows, and the slot is free after the last use.
unfoldable pub occupy : PhysicalResource → Eligible → PhysicalResource
unfolding is_buffer
occupy ph r =
    if is_buffer r.kind
    then record ph { buf_usage = ph.buf_usage ++ r.buf_usage; free_from = r.last_use }
    else record ph { tex_usage = ph.tex_usage ++ r.tex_usage; free_from = r.last_use }

unfoldable pub occupy_at : List PhysicalResource → ℕ → Eligible → List PhysicalResource
unfolding occupy
occupy_at [] k r = []
occupy_at (ph ∷ slots) zero r = occupy ph r ∷ slots
occupy_at (ph ∷ slots) (suc k) r = ph ∷ occupy_at slots k r

unfoldable pub new_slot : Eligible → PhysicalResource
new_slot r = record {
  kind = r.kind;
  free_from = 0;
  identity = r.name;
  signature = r.signature;
  buffer_size = r.buffer_size;
  tex_usage = [];
  buf_usage = [];
}

pub record Placed : Type 0 where
  pub node : Eligible
  pub slot : ℕ

-- The slot of one resource, and the slots after it has moved in.
unfoldable pub place : List PhysicalResource → Eligible → List PhysicalResource × ℕ
unfolding find_slot occupy_at new_slot
place slots r = elim (find_slot slots r) [
  | some k ↦ (occupy_at slots k r, k)
  | none ↦ (occupy_at (slots ++ new_slot r ∷ []) (length slots) r, length slots)
]

-- What the filter keeps out trips an internal error here.
unfoldable pub is_misplaced : Eligible → Bool
unfolding is_buffer
is_misplaced r =
    not (is_buffer r.kind)
    && not ((r.signature.mip_level_count == 1) && (r.signature.sample_count == 1))

unfoldable pub place_all : List PhysicalResource → List Eligible → Option (List Placed)
unfolding place is_misplaced
place_all slots [] = some []
place_all slots (r ∷ rs) =
    let rest = place_all (place slots r).0 rs in
    if is_misplaced r then none else elim rest [
      | none ↦ none
      | some placed ↦ some (record { node = r; slot = (place slots r).1 } ∷ placed)
    ]

unfoldable pub assign_slots :
    (ℕ → Extent) → (ℕ → Life) → (ℕ → Bool) → List ResourceNode → Option (List Placed)
unfolding place_all stable_sort gather_eligible
assign_slots resolved u transient resources =
    place_all [] (stable_sort (gather_eligible resolved u transient resources))
