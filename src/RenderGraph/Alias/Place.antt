-- ===== src/RenderGraph/Alias/Place.antt =====
-- What placing a resource does to the slots.
use alpenite.Prelude.{
  ℕ, ◌≤◌, ◌<◌, ◌≡◌, refl, inl, inr, true, false, none, some, List, [], ◌∷◌, ◌++◌, sym, ◌∙◌, ap,
  subst, length, get_elem?, arith, Option-cases, some-injective, ℕ_discrete,
}
use alpenite.RenderGraph.Access.{is_buffer}
use alpenite.RenderGraph.Alias.Defs.{
  Eligible, PhysicalResource, find_slot, occupy, occupy_at, new_slot, place,
}
use alpenite.RenderGraph.Alias.Slots.{
  IsAlike, IsHome, ≢_of_lt, fits-kind, fits-buffers, fits-textures, fits-free, find_slot-fits,
  occupy-fields, occupy_at_self, occupy_at-ne, get-append_old, get-append_new, get-lt, Lives,
}

occupy-IsHome :
    (ph : PhysicalResource) (r : Eligible)
    → ph.kind ≡ r.kind
    → (is_buffer r.kind ≡ true → ph.buffer_size ≡ r.buffer_size)
    → (is_buffer r.kind ≡ false → ph.signature ≡ r.signature)
    → IsHome r (occupy ph r)
occupy-IsHome ph r k b t =
    let (kind, size, sig, free) = occupy-fields ph r in
    record {
      kind = kind ∙ k;
      buffers = λ e. size ∙ b e;
      textures = λ e. sig ∙ t e;
      taken = omega (arith, free);
    }

-- The slot passes on to a later resource, whose lifetime starts after the slot is free.
occupy-old :
    (ph : PhysicalResource) (x r : Eligible)
    → IsHome x ph
    → ph.free_from ≤ r.last_use
    → IsHome x (occupy ph r)
occupy-old ph x r h le =
    let (kind, size, sig, free) = occupy-fields ph r in
    record {
      kind = kind ∙ h.kind;
      buffers = λ e. size ∙ h.buffers e;
      textures = λ e. sig ∙ h.textures e;
      taken = omega (arith, free, h.taken);
    }

module _ (slots : List PhysicalResource) (r : Eligible) where
  pub place-some : (k : ℕ) → find_slot slots r ≡ some k → place slots r ≡ (occupy_at slots k r, k)
  unfolding place
  place-some k e = rw (e, place) refl

  pub place-none :
      find_slot slots r ≡ none
      → place slots r ≡ (occupy_at (slots ++ new_slot r ∷ []) (length slots) r, length slots)
  unfolding place
  place-none e = rw (e, place) refl

  -- The resource lives in its slot.
  pub place-Lives : Lives r (place slots r).0 (place slots r).1
  unfolding new_slot
  place-Lives = elim (Option-cases (find_slot slots r)) [
    | inl e ↦
        subst (λ (p : List PhysicalResource × ℕ). Lives r p.0 p.1) (sym (place-none e))
          (
            occupy (new_slot r) r,
            occupy_at_self (slots ++ new_slot r ∷ []) (length slots) r (new_slot r)
                (get-append_new slots (new_slot r)),
            occupy-IsHome (new_slot r) r refl (λ _. refl) (λ _. refl),
          )
    | inr (k, e) ↦
        let (ph, at, fit) = find_slot-fits slots r k e in
        subst (λ (p : List PhysicalResource × ℕ). Lives r p.0 p.1) (sym (place-some k e))
          (
            occupy ph r,
            occupy_at_self slots k r ph at,
            occupy-IsHome ph r (fits-kind ph r fit) (fits-buffers ph r fit)
                (fits-textures ph r fit),
          )
  ]

  -- What lived in a slot lives there still.
  pub place-old :
      (x : Eligible) (j : ℕ)
      → r.first_use ≤ r.last_use
      → Lives x slots j
      → Lives x (place slots r).0 j
  place-old x j ordered (px, at_x, home) = elim (Option-cases (find_slot slots r)) [
    | inl e ↦
        subst (λ (p : List PhysicalResource × ℕ). Lives x p.0 j) (sym (place-none e))
          (
            px,
            occupy_at-ne (slots ++ new_slot r ∷ []) (length slots) j r
                  (λ same. ≢_of_lt (get-lt slots j px at_x) same)
                ∙ get-append_old slots (new_slot r ∷ []) j px at_x,
            home,
          )
    | inr (k, e) ↦
        let (ph, at, fit) = find_slot-fits slots r k e in
        subst (λ (p : List PhysicalResource × ℕ). Lives x p.0 j) (sym (place-some k e))
          (elim (ℕ_discrete k j) [
            | yes same ↦
                let there : px ≡ ph =
                  some-injective px ph (sym at_x ∙ ap (get_elem? slots) (sym same) ∙ at) in
                (
                  occupy ph r,
                  ap (get_elem? (occupy_at slots k r)) (sym same) ∙ occupy_at_self slots k r ph at,
                  occupy-old ph x r (subst (IsHome x) there home)
                      (omega (arith, fits-free ph r fit)),
                )
            | no ne ↦ (px, occupy_at-ne slots k j r ne ∙ at_x, home)
          ])
  ]

  -- A resource that is placed where another lives is like it, and starts after it ends.
  pub place-meets :
      (x : Eligible) → Lives x slots (place slots r).1 → IsAlike x r × (x.last_use < r.first_use)
  place-meets x = elim (Option-cases (find_slot slots r)) [
    | inl e ↦
        subst
          (λ (p : List PhysicalResource × ℕ).
            Lives x slots p.1 → IsAlike x r × (x.last_use < r.first_use))
          (sym (place-none e))
          (λ (px, at_x, home). absurd (≢_of_lt (get-lt slots (length slots) px at_x) refl))
    | inr (k, e) ↦
        let (ph, at, fit) = find_slot-fits slots r k e in
        subst
          (λ (p : List PhysicalResource × ℕ).
            Lives x slots p.1 → IsAlike x r × (x.last_use < r.first_use))
          (sym (place-some k e))
          (λ (px, at_x, home).
            let h = subst (IsHome x) (some-injective px ph (sym at_x ∙ at)) home in
            let kinds : x.kind ≡ r.kind = sym h.kind ∙ fits-kind ph r fit in
            (
              record {
                kind = kinds;
                buffers =
                    λ b. sym (h.buffers b) ∙ fits-buffers ph r fit (ap is_buffer (sym kinds) ∙ b);
                textures =
                    λ t. sym (h.textures t) ∙ fits-textures ph r fit (ap is_buffer (sym kinds) ∙ t);
              },
              omega (arith, h.taken, fits-free ph r fit),
            ))
  ]
