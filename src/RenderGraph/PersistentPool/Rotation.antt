-- ===== src/RenderGraph/PersistentPool/Rotation.antt =====
-- How touching rotates the layers of a history.
use alpenite.Prelude.{
  ℕ, ◌^◌, ◌<◌, ◌≡◌, refl, ◌≢◌, inl, inr, true, false, none, some, List, [], ◌∷◌, sym, ap, ◌∙◌, ◌==◌,
  arith, Bool-cases, Option-cases, some-injective,
}
use alpenite.RenderGraph.Access.{ResourceKind}
use alpenite.RenderGraph.Resources.{TexSignature}
use alpenite.RenderGraph.PersistentPool.Defs.{
  ResourceId, Entry, PersistentPool, is_named, find, touch_entry, touch_found, touch_pool,
  new_entry, increment, slot,
}

-- The entry after it is touched in a frame that has not touched it.
record IsTurned (clock layers : ℕ) (e f : Entry) : Type 0 where
  frame : f.frame ≡ increment e.frame
  touched : f.last_touched ≡ clock
  before : f.prev_touched ≡ e.last_touched
  layered : f.layers ≡ layers
  value : f.id_value ≡ e.id_value
  name : f.name ≡ e.name

touch_entry-IsTurned :
    (clock layers hash : ℕ) (kind : ResourceKind) (e : Entry)
    → e.last_touched ≢ clock
    → IsTurned clock layers e (touch_entry clock layers hash kind e)
unfolding touch_entry
touch_entry-IsTurned clock layers hash kind e ne = record {
  frame = ground arith;
  touched = ground arith;
  before = ground arith;
  layered = ground arith;
  value = ground arith;
  name = ground arith;
}

touch_entry-same :
    (clock layers hash : ℕ) (kind : ResourceKind) (e : Entry)
    → e.last_touched ≡ clock
    → touch_entry clock layers hash kind e ≡ e
unfolding touch_entry
touch_entry-same clock layers hash kind e same =
    let now : (e.last_touched == clock) ≡ true = ground arith in rw now refl

touched-now :
    (clock layers hash : ℕ) (kind : ResourceKind) (e : Entry)
    → (touch_entry clock layers hash kind e).last_touched ≡ clock
unfolding touch_entry
touched-now clock layers hash kind e = ground arith

touch_entry-named :
    (clock layers hash : ℕ) (kind : ResourceKind) (id : ResourceId) (e : Entry)
    → is_named id (touch_entry clock layers hash kind e) ≡ is_named id e
unfolding touch_entry is_named
touch_entry-named clock layers hash kind id e = ground arith

find-here :
    (id : ResourceId) (e : Entry) (entries : List Entry)
    → is_named id e ≡ true
    → find id (e ∷ entries) ≡ some e
unfolding find
find-here id e entries is = rw is refl

find-next :
    (id : ResourceId) (e : Entry) (entries : List Entry)
    → is_named id e ≡ false
    → find id (e ∷ entries) ≡ find id entries
unfolding find
find-next id e entries isnt = rw isnt refl

module _ (f : Entry → Entry) (id : ResourceId) where
  find-touch_found :
      (entries : List Entry) (e : Entry)
      → ((x : Entry) → is_named id (f x) ≡ is_named id x)
      → find id entries ≡ some e
      → find id (touch_found f id entries) ≡ some (f e)
  unfolding find touch_found
  find-touch_found [] e named h = absurd (cc)
  find-touch_found (x ∷ entries) e named h = elim (Bool-cases (is_named id x)) [
    | inl is ↦
        let same : x ≡ e = some-injective x e (sym (find-here id x entries is) ∙ h) in
        rw is (find-here id (f x) entries (named x ∙ is) ∙ ap (λ y. some (f y)) same)
    | inr isnt ↦ rw isnt (
        find-next id x (touch_found f id entries) isnt
        ∙ find-touch_found entries e named (sym (find-next id x entries isnt) ∙ h))
  ]

  touch_found_fixed :
      (entries : List Entry) (e : Entry)
      → find id entries ≡ some e
      → f e ≡ e
      → touch_found f id entries ≡ entries
  unfolding find touch_found
  touch_found_fixed [] e h k = refl
  touch_found_fixed (x ∷ entries) e h k = elim (Bool-cases (is_named id x)) [
    | inl is ↦
        let same : x ≡ e = some-injective x e (sym (find-here id x entries is) ∙ h) in
        rw is (ap (λ y. y ∷ entries) (ap f same ∙ (k ∙ sym same)))
    | inr isnt ↦
        rw isnt
          (ap (λ l. x ∷ l) (touch_found_fixed entries e (sym (find-next id x entries isnt) ∙ h) k))
  ]

module _ (blank : TexSignature) (id : ResourceId) (layers hash : ℕ) (kind : ResourceKind)
    (pool : PersistentPool) where
  touch_pool-some :
      (e : Entry)
      → find id pool.entries ≡ some e
      → touch_pool blank id layers hash kind pool ≡ record pool {
        entries = touch_found (touch_entry pool.evict_clock layers hash kind) id pool.entries;
      }
  unfolding touch_pool
  touch_pool-some e h = rw (h, touch_pool) refl

  touch_pool-none :
      find id pool.entries ≡ none
      → touch_pool blank id layers hash kind pool ≡ record pool {
        entries = new_entry blank id pool.evict_clock layers hash kind ∷ pool.entries;
      }
  unfolding touch_pool
  touch_pool-none h = rw (h, touch_pool) refl

  new_entry-named : is_named id (new_entry blank id pool.evict_clock layers hash kind) ≡ true
  unfolding is_named new_entry
  new_entry-named = ground arith

  new_entry-fixed :
      touch_entry pool.evict_clock layers hash kind
        (new_entry blank id pool.evict_clock layers hash kind)
      ≡ new_entry blank id pool.evict_clock layers hash kind
  unfolding new_entry
  new_entry-fixed =
      touch_entry-same pool.evict_clock layers hash kind
        (new_entry blank id pool.evict_clock layers hash kind) refl

  -- After a touch, the entry is found, and a second touch in the frame would not change it.
  touched :
      (e : Entry) × (find id (touch_pool blank id layers hash kind pool).entries ≡ some e)
      × (touch_entry pool.evict_clock layers hash kind e ≡ e)
      × ((touch_pool blank id layers hash kind pool).evict_clock ≡ pool.evict_clock)
  touched = elim (Option-cases (find id pool.entries)) [
    | inl h ↦ rw (touch_pool-none h) (
      new_entry blank id pool.evict_clock layers hash kind,
      find-here id _ pool.entries new_entry-named,
      new_entry-fixed,
      refl,
    )
    | inr (e, h) ↦
        let f = touch_entry pool.evict_clock layers hash kind in
        rw (touch_pool-some e h) (
          f e,
          find-touch_found f id pool.entries e
              (touch_entry-named pool.evict_clock layers hash kind id) h,
          touch_entry-same pool.evict_clock layers hash kind (f e)
              (touched-now pool.evict_clock layers hash kind e),
          refl,
        )
  ]

-- Touching a resource twice in a frame is touching it once, so the two layers of a history, which share an entry, rotate it once.
pub touch_pool_idempotent :
    (blank : TexSignature) (id : ResourceId) (layers hash : ℕ) (kind : ResourceKind)
    (pool : PersistentPool)
    → touch_pool blank id layers hash kind (touch_pool blank id layers hash kind pool)
      ≡ touch_pool blank id layers hash kind pool
touch_pool_idempotent blank id layers hash kind pool =
    let once = touch_pool blank id layers hash kind pool in
    let (e, found, fixed, clock) = touched blank id layers hash kind pool in
    touch_pool-some blank id layers hash kind once e found
    ∙ ap (λ l. record { entries = l; evict_clock = once.evict_clock })
        (touch_found_fixed (touch_entry once.evict_clock layers hash kind) id once.entries e found
          (ap (λ c. touch_entry c layers hash kind e) clock ∙ fixed))

-- Let an entry of two layers, whose rotation counter is a uint64_t, be touched in a frame that has not touched it. Then it is found again; what was its current slot is the slot of its previous layer, the current slot is the other one, and it is noted when it was touched before.
pub touch_pool-slot :
    (blank : TexSignature) (id : ResourceId) (hash : ℕ) (kind : ResourceKind)
    (pool : PersistentPool) (e : Entry)
    → find id pool.entries ≡ some e
    → e.layers ≡ 2
    → e.frame < 2 ^ 64
    → e.last_touched ≢ pool.evict_clock
    → (f : Entry) × (find id (touch_pool blank id 2 hash kind pool).entries ≡ some f)
      × (slot f 1 ≡ slot e 0)
      × (slot f 0 ≢ slot f 1)
      × (f.prev_touched ≡ e.last_touched)
unfolding slot increment
touch_pool-slot blank id hash kind pool e h two fits ne =
    let f = touch_entry pool.evict_clock 2 hash kind in
    let t = touch_entry-IsTurned pool.evict_clock 2 hash kind e ne in
    (
      f e,
      rw (touch_pool-some blank id 2 hash kind pool e h) (
          find-touch_found f id pool.entries e (touch_entry-named pool.evict_clock 2 hash kind id)
            h),
      rw (t.frame, t.layered, two) (omega arith),
      rw (t.frame, t.layered) (omega arith),
      t.before,
    )
