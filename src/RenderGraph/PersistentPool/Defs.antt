-- ===== src/RenderGraph/PersistentPool/Defs.antt =====
-- The entries and the operations of the pool.
use alpenite.Prelude.{
  ℕ, ◌+◌, ◌-◌, ◌%◌, ◌^◌, Bool, true, false, not, ◌&&◌, ◌||◌, Option, none, some, List, [], ◌∷◌, map,
  ◌==◌, leb, if◌then◌else◌, contains, ℕ_discrete,
}
use alpenite.RenderGraph.Access.{
  ResourceKind, TextureUsage, tex_copy_src, tex_copy_dst, texture_binding, storage_binding,
  render_attachment, transient_attachment, BufferUsage, buf_copy_src, buf_copy_dst, buf_index,
  buf_vertex, buf_uniform, buf_storage, buf_indirect,
}
use alpenite.RenderGraph.Resources.{TexSignature, same_kind, sig_eq}

-- An interned id: its hash and the address of its name.
pub record ResourceId : Type 0 where
  pub value : ℕ
  pub name : ℕ

pub record Entry : Type 0 where
  pub id_value : ℕ
  pub name : ℕ
  pub frame : ℕ
  pub last_touched : ℕ
  pub prev_touched : ℕ
  pub layers : ℕ
  pub kind : ResourceKind
  pub init_hash : ℕ
  pub baked : Bool
  pub history_hash : ℕ
  pub created : Bool
  pub created_clock : ℕ
  pub signature : TexSignature
  pub usage : List TextureUsage
  pub usage_at_create : List TextureUsage
  pub buffer_size : ℕ
  pub buf_usage : List BufferUsage
  pub buf_usage_at_create : List BufferUsage

pub record PersistentPool : Type 0 where
  pub entries : List Entry
  pub evict_clock : ℕ

-- `kRetain`.
abbrev pub retain : ℕ
retain = 4

-- uint64_t: an increment and a difference.
unfoldable pub increment : ℕ → ℕ
increment n = (n + 1) % 2 ^ 64

unfoldable pub difference : ℕ → ℕ → ℕ
difference a b = (a + (2 ^ 64 - b)) % 2 ^ 64

unfoldable pub is_named : ResourceId → Entry → Bool
is_named id e = (e.id_value == id.value) && (e.name == id.name)

unfoldable pub find : ResourceId → List Entry → Option Entry
unfolding is_named
find id [] = none
find id (e ∷ entries) = let rest = find id entries in if is_named id e then some e else rest

unfoldable pub destroy : Entry → Entry
destroy e = record e { created = false; baked = false }

unfoldable pub history_hash_forces_destroy : Entry → ℕ → Bool
history_hash_forces_destroy e hash = not (hash == 0) && not (e.history_hash == hash)

-- What touch() does to the entry that it finds.
unfoldable pub touch_entry : ℕ → ℕ → ℕ → ResourceKind → Entry → Entry
unfolding destroy history_hash_forces_destroy increment same_kind
touch_entry clock layers hash kind e =
    let kept : Entry =
      if not (same_kind e.kind kind) || not (e.layers == layers) then destroy e else e in
    let turned : Entry = record kept {
      prev_touched = kept.last_touched;
      frame = increment kept.frame;
      last_touched = clock;
      layers = layers;
      kind = kind;
    } in
    if e.last_touched == clock
    then e
    else if history_hash_forces_destroy turned hash
    then record (destroy turned) { history_hash = hash }
    else turned

-- The entry found under the id is touched where it stands.
unfoldable pub touch_found : (Entry → Entry) → ResourceId → List Entry → List Entry
unfolding is_named
touch_found f id [] = []
touch_found f id (e ∷ entries) =
    let rest = touch_found f id entries in if is_named id e then f e ∷ entries else e ∷ rest

-- A fresh entry; `blank` is the signature of a default-constructed one.
unfoldable pub new_entry : TexSignature → ResourceId → ℕ → ℕ → ℕ → ResourceKind → Entry
new_entry blank id clock layers hash kind = record {
  id_value = id.value;
  name = id.name;
  frame = 0;
  last_touched = clock;
  prev_touched = clock;
  layers = layers;
  kind = kind;
  init_hash = 0;
  baked = false;
  history_hash = hash;
  created = false;
  created_clock = 2 ^ 64 - 1;
  signature = blank;
  usage = [];
  usage_at_create = [];
  buffer_size = 0;
  buf_usage = [];
  buf_usage_at_create = [];
}

unfoldable pub touch_pool :
    TexSignature → ResourceId → ℕ → ℕ → ResourceKind → PersistentPool → PersistentPool
unfolding find touch_found touch_entry new_entry
touch_pool blank id layers hash kind pool = elim (find id pool.entries) [
  | some e ↦ record pool {
    entries = touch_found (touch_entry pool.evict_clock layers hash kind) id pool.entries;
  }
  | none ↦ record pool {
    entries = new_entry blank id pool.evict_clock layers hash kind ∷ pool.entries;
  }
]

-- The physical slot of a layer: 0 is the current one, 1 the one of the frame before.
unfoldable pub slot : Entry → ℕ → ℕ
slot e layer = ((e.frame + layer) % 2 ^ 64) % e.layers

unfoldable pub tex_code : TextureUsage → ℕ
tex_code tex_copy_src = 0
tex_code tex_copy_dst = 1
tex_code texture_binding = 2
tex_code storage_binding = 3
tex_code render_attachment = 4
tex_code transient_attachment = 5

unfoldable pub buf_code : BufferUsage → ℕ
buf_code buf_copy_src = 0
buf_code buf_copy_dst = 1
buf_code buf_index = 2
buf_code buf_vertex = 3
buf_code buf_uniform = 4
buf_code buf_storage = 5
buf_code buf_indirect = 6

-- `(usage & ~at_create) != 0`, on the codes of the flags.
unfoldable pub has_other : List ℕ → List ℕ → Bool
unfolding contains
has_other [] at_create = false
has_other (u ∷ usage) at_create = not (contains ℕ_discrete at_create u) || has_other usage at_create

unfoldable pub tex_entry_would_recreate : Entry → TexSignature → List TextureUsage → Bool
unfolding sig_eq has_other tex_code
tex_entry_would_recreate e signature usage =
    not e.created
    || not (sig_eq e.signature signature)
    || has_other (map tex_code usage) (map tex_code e.usage_at_create)

unfoldable pub buf_entry_would_recreate : Entry → ℕ → List BufferUsage → Bool
unfolding has_other buf_code
buf_entry_would_recreate e size usage =
    not e.created
    || not (e.buffer_size == size)
    || has_other (map buf_code usage) (map buf_code e.buf_usage_at_create)

unfoldable pub realize_texture_entry : ℕ → TexSignature → Entry → Entry
unfolding tex_entry_would_recreate destroy
realize_texture_entry clock signature e =
    if not (tex_entry_would_recreate e signature e.usage) then e else record (destroy e) {
      signature = signature;
      usage_at_create = e.usage;
      created = true;
      created_clock = clock;
    }

unfoldable pub realize_buffer_entry : ℕ → ℕ → Entry → Entry
unfolding buf_entry_would_recreate destroy
realize_buffer_entry clock size e =
    if not (buf_entry_would_recreate e size e.buf_usage) then e else record (destroy e) {
      buffer_size = size;
      buf_usage_at_create = e.buf_usage;
      created = true;
      created_clock = clock;
    }

unfoldable pub evict : ℕ → List Entry → List Entry
unfolding difference
evict clock [] = []
evict clock (e ∷ entries) =
    let rest = evict clock entries in
    if leb retain (difference clock e.last_touched) then rest else e ∷ rest

unfoldable pub end_frame : PersistentPool → PersistentPool
unfolding evict increment
end_frame pool = record {
  entries = evict pool.evict_clock pool.entries;
  evict_clock = increment pool.evict_clock;
}

unfoldable pub destroy_all : PersistentPool → PersistentPool
destroy_all pool = record pool { entries = [] }
