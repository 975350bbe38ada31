-- ===== src/RenderGraph/Alias/Slots.antt =====
-- What a slot holds on to of the resources that were placed in it, and how the search for a slot goes.
use alpenite.Prelude.{
  ℕ, zero, suc, ◌≤◌, ◌<◌, ◌≡◌, refl, ◌≢◌, inl, inr, true, false, none, some, List, [], ◌∷◌, ◌++◌,
  sym, ◌∙◌, ap, subst, length, get_elem?, arith, Bool-cases, Option-cases, some-injective,
}
use alpenite.RenderGraph.Access.{is_buffer}
use alpenite.RenderGraph.Resources.{same_kind→≡, sig_eq→≡}
use alpenite.RenderGraph.Alias.Defs.{Eligible, PhysicalResource, fits, find_slot, occupy, occupy_at}

-- One physical object serves both: they are buffers of one size or textures of one signature.
pub record IsAlike (a b : Eligible) : Type 0 where
  pub kind : a.kind ≡ b.kind
  pub buffers : is_buffer a.kind ≡ true → a.buffer_size ≡ b.buffer_size
  pub textures : is_buffer a.kind ≡ false → a.signature ≡ b.signature

-- The slot was made for what the resource is, and stays taken until its last use.
pub record IsHome (r : Eligible) (ph : PhysicalResource) : Type 0 where
  pub kind : ph.kind ≡ r.kind
  pub buffers : is_buffer r.kind ≡ true → ph.buffer_size ≡ r.buffer_size
  pub textures : is_buffer r.kind ≡ false → ph.signature ≡ r.signature
  pub taken : r.last_use ≤ ph.free_from

abbrev pub Lives : Eligible → List PhysicalResource → ℕ → Type 0
Lives r slots k = (ph : PhysicalResource) × (get_elem? slots k ≡ some ph) × IsHome r ph

pub some≢none : {A : Type 0} {a : A} → some a ≡ none → ⊥
some≢none h = absurd (cc)

pub ≢_of_lt : {j n : ℕ} → j < n → n ≡ j → ⊥
≢_of_lt h e = omega arith

pub fits-kind : (ph : PhysicalResource) (r : Eligible) → fits ph r ≡ true → ph.kind ≡ r.kind
unfolding fits
fits-kind ph r h = same_kind→≡ ph.kind r.kind (ground arith)

pub fits-buffers :
    (ph : PhysicalResource) (r : Eligible)
    → fits ph r ≡ true
    → is_buffer r.kind ≡ true
    → ph.buffer_size ≡ r.buffer_size
unfolding fits
fits-buffers ph r h b = ground arith

pub fits-textures :
    (ph : PhysicalResource) (r : Eligible)
    → fits ph r ≡ true
    → is_buffer r.kind ≡ false
    → ph.signature ≡ r.signature
unfolding fits
fits-textures ph r h b = sig_eq→≡ ph.signature r.signature (ground arith)

pub fits-free :
    (ph : PhysicalResource) (r : Eligible) → fits ph r ≡ true → ph.free_from < r.first_use
unfolding fits
fits-free ph r h = ground arith

find_slot-here :
    (ph : PhysicalResource) (slots : List PhysicalResource) (r : Eligible)
    → fits ph r ≡ true
    → find_slot (ph ∷ slots) r ≡ some 0
unfolding find_slot
find_slot-here ph slots r f = rw f refl

find_slot-next :
    (ph : PhysicalResource) (slots : List PhysicalResource) (r : Eligible) (j : ℕ)
    → fits ph r ≡ false
    → find_slot slots r ≡ some j
    → find_slot (ph ∷ slots) r ≡ some (suc j)
unfolding find_slot
find_slot-next ph slots r j f e = rw (f, e) refl

find_slot-none :
    (ph : PhysicalResource) (slots : List PhysicalResource) (r : Eligible)
    → fits ph r ≡ false
    → find_slot slots r ≡ none
    → find_slot (ph ∷ slots) r ≡ none
unfolding find_slot
find_slot-none ph slots r f e = rw (f, e) refl

pub find_slot-fits :
    (slots : List PhysicalResource) (r : Eligible) (k : ℕ)
    → find_slot slots r ≡ some k
    → (ph : PhysicalResource) × (get_elem? slots k ≡ some ph) × (fits ph r ≡ true)
unfolding find_slot
find_slot-fits [] r k h = absurd (cc)
find_slot-fits (ph ∷ slots) r k h = elim (Bool-cases (fits ph r)) [
  | inl f ↦
      subst (λ i. (x : PhysicalResource) × (get_elem? (ph ∷ slots) i ≡ some x) × (fits x r ≡ true))
        (some-injective 0 k (sym (find_slot-here ph slots r f) ∙ h)) (ph, refl, f)
  | inr f ↦ elim (Option-cases (find_slot slots r)) [
    | inl e ↦ absurd (some≢none (sym h ∙ find_slot-none ph slots r f e))
    | inr (j, e) ↦
        subst
          (λ i. (x : PhysicalResource) × (get_elem? (ph ∷ slots) i ≡ some x) × (fits x r ≡ true))
          (some-injective (suc j) k (sym (find_slot-next ph slots r j f e) ∙ h))
          (find_slot-fits slots r j e)
  ]
]

pub occupy-fields :
    (ph : PhysicalResource) (r : Eligible)
    → ((occupy ph r).kind ≡ ph.kind)
      × ((occupy ph r).buffer_size ≡ ph.buffer_size)
      × ((occupy ph r).signature ≡ ph.signature)
      × ((occupy ph r).free_from ≡ r.last_use)
unfolding occupy
occupy-fields ph r = elim (Bool-cases (is_buffer r.kind)) [
  | inl b ↦ rw b (refl, refl, refl, refl)
  | inr t ↦ rw t (refl, refl, refl, refl)
]

pub occupy_at_self :
    (slots : List PhysicalResource) (k : ℕ) (r : Eligible) (ph : PhysicalResource)
    → get_elem? slots k ≡ some ph
    → get_elem? (occupy_at slots k r) k ≡ some (occupy ph r)
unfolding occupy_at
occupy_at_self [] k r ph h = absurd (cc)
occupy_at_self (x ∷ slots) zero r ph h = ap (λ y. some (occupy y r)) (some-injective x ph h)
occupy_at_self (x ∷ slots) (suc k) r ph h = occupy_at_self slots k r ph h

pub occupy_at-ne :
    (slots : List PhysicalResource) (k j : ℕ) (r : Eligible)
    → k ≢ j
    → get_elem? (occupy_at slots k r) j ≡ get_elem? slots j
unfolding occupy_at
occupy_at-ne [] k j r ne = refl
occupy_at-ne (x ∷ slots) zero zero r ne = absurd (ne refl)
occupy_at-ne (x ∷ slots) zero (suc j) r ne = refl
occupy_at-ne (x ∷ slots) (suc k) zero r ne = refl
occupy_at-ne (x ∷ slots) (suc k) (suc j) r ne = occupy_at-ne slots k j r (λ e. ne (ap suc e))

pub get-append_old :
    (slots more : List PhysicalResource) (k : ℕ) (ph : PhysicalResource)
    → get_elem? slots k ≡ some ph
    → get_elem? (slots ++ more) k ≡ some ph
get-append_old [] more k ph h = absurd (cc)
get-append_old (x ∷ slots) more zero ph h = h
get-append_old (x ∷ slots) more (suc k) ph h = get-append_old slots more k ph h

pub get-append_new :
    (slots : List PhysicalResource) (ph : PhysicalResource)
    → get_elem? (slots ++ ph ∷ []) (length slots) ≡ some ph
get-append_new [] ph = refl
get-append_new (x ∷ slots) ph = get-append_new slots ph

pub get-lt :
    (slots : List PhysicalResource) (k : ℕ) (ph : PhysicalResource)
    → get_elem? slots k ≡ some ph
    → k < length slots
get-lt [] k ph h = absurd (cc)
get-lt (x ∷ slots) zero ph h = omega arith
get-lt (x ∷ slots) (suc k) ph h = omega (arith, get-lt slots k ph h)
