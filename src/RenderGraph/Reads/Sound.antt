-- ===== src/RenderGraph/Reads/Sound.antt =====
-- What the check guarantees when it reports nothing.
use alpenite.Prelude.{
  ℕ, ◌≡◌, refl, ◌≢◌, inl, inr, Bool, true, false, ◌&&◌, ◌||◌, List, [], ◌∷◌, ◌++◌, All, sym, ◌∙◌,
  ap, subst, ◌==◌, update, update_self, update_ne, ℕ_discrete, arith, Bool-cases,
}
use alpenite.RenderGraph.Access.{ResourceAccess, access_is_write}
use alpenite.RenderGraph.Nodes.{PassNode}
use alpenite.RenderGraph.Resources.{ResourceNode}
use alpenite.RenderGraph.Reads.Defs.{
  Tables, externals, prev_layers, writes, pass_writes, mark_produced, access_errors,
  accesses_errors, passes_errors, read_errors,
}

-- Two lists of errors that together are empty.
append-nil_parts : {A : Type 0} (xs ys : List A) → xs ++ ys ≡ [] → (xs ≡ []) × (ys ≡ [])
append-nil_parts [] ys h = (refl, h)
append-nil_parts (x ∷ xs) ys h = absurd (cc)

or_assoc : (a b c : Bool) → ((a || b) || c) ≡ (a || (b || c))
or_assoc true b c = refl
or_assoc false b c = refl

mark_produced_lem :
    (a : ResourceAccess) (produced : ℕ → Bool) (id : ℕ)
    → mark_produced a produced id ≡ (produced id || ((a.handle.id == id) && access_is_write a.type))
unfolding mark_produced
mark_produced_lem a produced id = elim (Bool-cases (access_is_write a.type)) [
  | inl w ↦ rw w (elim (ℕ_discrete a.handle.id id) [
    | yes e ↦
        subst
          (λ j. update produced a.handle.id true j ≡ (produced j || ((a.handle.id == j) && true))) e
          (rw (update_self produced a.handle.id true) (ground arith))
    | no ne ↦ rw (update_ne produced a.handle.id id true ne) (ground arith)
  ])
  | inr r ↦ rw r (ground arith)
]

accesses-produced :
    (t : Tables) (p : PassNode) (produced : ℕ → Bool) (accesses : List ResourceAccess) (id : ℕ)
    → (accesses_errors t p produced accesses).1 id ≡ (produced id || writes accesses id)
unfolding accesses_errors writes
accesses-produced t p produced [] id = ground arith
accesses-produced t p produced (a ∷ accesses) id =
    accesses-produced t p (mark_produced a produced) accesses id
    ∙ (ap (λ b. b || writes accesses id) (mark_produced_lem a produced id)
        ∙ or_assoc (produced id) _ (writes accesses id))

-- An access that the check lets pass: a write of a resource that is no older layer, or a read of
-- one that is external or was written before.
abbrev Passes : Tables → (ℕ → Bool) → ResourceAccess → Type 0
Passes t produced a =
    ((access_is_write a.type ≡ true) → t.prev_layer a.handle.id ≡ false)
    × ((access_is_write a.type ≡ false)
        → a.handle.id ≢ 0
        → t.external a.handle.id ≡ false
        → produced a.handle.id ≡ true)

Passes-ext :
    (t : Tables) (produced after : ℕ → Bool) (a : ResourceAccess)
    → produced a.handle.id ≡ after a.handle.id
    → Passes t produced a
    → Passes t after a
Passes-ext t produced after a e (w, r) = (w, λ read id own. sym e ∙ r read id own)

access-Passes :
    (t : Tables) (p : PassNode) (produced : ℕ → Bool) (a : ResourceAccess)
    → access_errors t p produced a ≡ []
    → Passes t produced a
unfolding access_errors
access-Passes t p produced a h = (λ w. ground arith, λ r ne own. ground arith)

accesses-Passes :
    (t : Tables) (p : PassNode) (produced : ℕ → Bool) (before : List ResourceAccess)
    (a : ResourceAccess) (after : List ResourceAccess)
    → (accesses_errors t p produced (before ++ a ∷ after)).0 ≡ []
    → Passes t (λ id. produced id || writes before id) a
unfolding accesses_errors writes
accesses-Passes t p produced [] a after h =
    Passes-ext t produced (λ id. produced id || false) a (ground arith)
      (access-Passes t p produced a (append-nil_parts (access_errors t p produced a) _ h).0)
accesses-Passes t p produced (x ∷ before) a after h =
    Passes-ext t (λ id. mark_produced x produced id || writes before id)
      (λ id. produced id || writes (x ∷ before) id) a
      (ap (λ b. b || writes before a.handle.id) (mark_produced_lem x produced a.handle.id)
        ∙ or_assoc (produced a.handle.id) _ (writes before a.handle.id))
      (accesses-Passes t p (mark_produced x produced) before a after
        (append-nil_parts (access_errors t p produced x) _ h).1)

order-Passes :
    (t : Tables) (produced : ℕ → Bool) (pre : List PassNode) (p : PassNode) (post : List PassNode)
    (before : List ResourceAccess) (a : ResourceAccess) (after : List ResourceAccess)
    → p.accesses ≡ before ++ a ∷ after
    → passes_errors t produced (pre ++ p ∷ post) ≡ []
    → Passes t (λ id. produced id || (pass_writes pre id || writes before id)) a
unfolding passes_errors pass_writes
order-Passes t produced [] p post before a after split h =
    accesses-Passes t p produced before a after (
      subst (λ l. (accesses_errors t p produced l).0 ≡ []) split
        (append-nil_parts (accesses_errors t p produced p.accesses).0 _ h).0)
order-Passes t produced (x ∷ pre) p post before a after split h =
    let next = (accesses_errors t x produced x.accesses).1 in
    Passes-ext t (λ id. next id || (pass_writes pre id || writes before id))
      (λ id. produced id || ((writes x.accesses id || pass_writes pre id) || writes before id)) a
      (ap (λ b. b || (pass_writes pre a.handle.id || writes before a.handle.id))
          (accesses-produced t x produced x.accesses a.handle.id)
        ∙ (or_assoc (produced a.handle.id) _ _
            ∙ ap (λ b. produced a.handle.id || b)
                (sym (or_assoc (writes x.accesses a.handle.id) (pass_writes pre a.handle.id) _))))
      (order-Passes t next pre p post before a after split
        (append-nil_parts (accesses_errors t x produced x.accesses).0 _ h).1)

-- When the check reports nothing, a read of the schedule that is not of an external resource follows a write of its resource, by an earlier pass or by an earlier access of its pass.
pub read_errors-produced :
    (resources : List ResourceNode) (declared pre : List PassNode) (p : PassNode)
    (post : List PassNode) (before : List ResourceAccess) (a : ResourceAccess)
    (after : List ResourceAccess)
    → read_errors resources declared (pre ++ p ∷ post) ≡ []
    → p.accesses ≡ before ++ a ∷ after
    → access_is_write a.type ≡ false
    → a.handle.id ≢ 0
    → externals resources (λ _. false) a.handle.id ≡ false
    → (pass_writes pre a.handle.id || writes before a.handle.id) ≡ true
unfolding read_errors
read_errors-produced resources declared pre p post before a after h split read valid own =
    (order-Passes _ (λ _. false) pre p post before a after split h).1 read valid own

-- An entry of the table that no later resource changes.
prev_layers_other :
    (resources : List ResourceNode) (t : ℕ → Bool) (id : ℕ)
    → All (λ r. r.handle.id ≢ id) resources
    → prev_layers resources t id ≡ t id
unfolding prev_layers
prev_layers_other [] t id h = refl
prev_layers_other (r ∷ resources) t id h =
    prev_layers_other resources _ id h.1 ∙ update_ne t r.handle.id id _ h.0

-- The older layers of a history are in the table.
prev_layers_layer :
    (earlier later : List ResourceNode) (r : ResourceNode) (t : ℕ → Bool)
    → All (λ x. x.handle.id ≢ r.handle.id) later
    → r.persistent ≡ true
    → r.history_index ≢ 0
    → prev_layers (earlier ++ r ∷ later) t r.handle.id ≡ true
unfolding prev_layers
prev_layers_layer [] later r t apart persistent older =
    prev_layers_other later _ r.handle.id apart
    ∙ update_self t r.handle.id _
    ∙ rw (persistent) (ground arith)
prev_layers_layer (x ∷ earlier) later r t apart persistent older =
    prev_layers_layer earlier later r _ apart persistent older

-- When the check reports nothing, no access of the schedule that writes is to an older layer of a history: a persistent resource whose history index is not 0, with an id that no later resource has.
pub read_errors-layers :
    (earlier later : List ResourceNode) (r : ResourceNode) (declared pre : List PassNode)
    (p : PassNode) (post : List PassNode) (before : List ResourceAccess) (a : ResourceAccess)
    (after : List ResourceAccess)
    → read_errors (earlier ++ r ∷ later) declared (pre ++ p ∷ post) ≡ []
    → p.accesses ≡ before ++ a ∷ after
    → All (λ x. x.handle.id ≢ r.handle.id) later
    → r.persistent ≡ true
    → r.history_index ≢ 0
    → access_is_write a.type ≡ true
    → a.handle.id ≢ r.handle.id
unfolding read_errors
read_errors-layers earlier later r declared pre p post before a after h split apart persistent older
      write e =
    let no_layer = (order-Passes _ (λ _. false) pre p post before a after split h).0 write in
    let layer = prev_layers_layer earlier later r (λ _. false) apart persistent older in
    let clash : true ≡ false =
      sym layer ∙ (ap (prev_layers (earlier ++ r ∷ later) (λ _. false)) (sym e) ∙ no_layer) in
    absurd (cc)
