-- ===== src/RenderGraph/Lifetimes/Touch.antt =====
-- One touch of a resource keeps its lifetime in order and takes the present place into it.
use alpenite.Prelude.{
  ℕ, suc, ◌≤◌, ◌≡◌, refl, inl, inr, false, none, some, sym, ◌∙◌, arith, Bool-cases, Option-cases,
  some-injective,
}
use alpenite.RenderGraph.Access.{ResourceAccess, ResourceKind, is_buffer}
use alpenite.RenderGraph.Resources.{ResourceNode, is_external}
use alpenite.RenderGraph.Lifetimes.Defs.{Life, extend_life, add_usage, touch}

-- Between two passes a lifetime that is open starts before it ends, and ends before the next pass.
pub record IsLife (i : ℕ) (l : Life) : Type 0 where
  pub order : (f : ℕ) → l.first_use ≡ some f → f ≤ l.last_use
  pub ended : (f : ℕ) → l.first_use ≡ some f → l.last_use ≤ i

-- The lifetime holds the place `k` of the schedule.
pub record Covers (k : ℕ) (l : Life) : Type 0 where
  pub first : ℕ
  pub opened : l.first_use ≡ some first
  pub after_first : first ≤ k
  pub before_last : k ≤ l.last_use

add_usage-lem :
    (kind : ResourceKind) (a : ResourceAccess) (l : Life)
    → ((add_usage kind a l).first_use ≡ l.first_use) × ((add_usage kind a l).last_use ≡ l.last_use)
unfolding add_usage
add_usage-lem kind a l = elim (Bool-cases (is_buffer kind)) [
  | inl e ↦ rw e (refl, refl)
  | inr e ↦ rw e (refl, refl)
]

extend_life-last : (i : ℕ) (a : ResourceAccess) (l : Life) → (extend_life i a l).last_use ≡ i
unfolding extend_life
extend_life-last i a l = ground arith

extend_life-first :
    (i : ℕ) (a : ResourceAccess) (l : Life)
    → l.first_use ≡ none
    → (extend_life i a l).first_use ≡ some i
unfolding extend_life
extend_life-first i a l e = ground arith

extend_life-next :
    (i f : ℕ) (a : ResourceAccess) (l : Life)
    → l.first_use ≡ some f
    → (extend_life i a l).first_use ≡ some f
unfolding extend_life
extend_life-next i f a l e = ground arith

extend_life-IsLife :
    (i : ℕ) (a : ResourceAccess) (l : Life) → IsLife i l → IsLife i (extend_life i a l)
extend_life-IsLife i a l v = record {
  order = λ f e. rw (extend_life-last i a l) (elim (Option-cases l.first_use) [
    | inl closed ↦ omega (arith, some-injective i f (sym (extend_life-first i a l closed) ∙ e))
    | inr (g, begun) ↦ omega (
      arith,
      some-injective g f (sym (extend_life-next i g a l begun) ∙ e),
      v.order g begun,
      v.ended g begun,
    )
  ]);
  ended = λ f e. omega (arith, extend_life-last i a l);
}

extend_life-Covers :
    (i : ℕ) (a : ResourceAccess) (l : Life) → IsLife i l → Covers i (extend_life i a l)
extend_life-Covers i a l v = elim (Option-cases l.first_use) [
  | inl closed ↦ record {
    first = i;
    opened = extend_life-first i a l closed;
    after_first = omega arith;
    before_last = omega (arith, extend_life-last i a l);
  }
  | inr (g, begun) ↦ record {
    first = g;
    opened = extend_life-next i g a l begun;
    after_first = omega (arith, v.order g begun, v.ended g begun);
    before_last = omega (arith, extend_life-last i a l);
  }
]

extend_life-old :
    (i k : ℕ) (a : ResourceAccess) (l : Life) → k ≤ i → Covers k l → Covers k (extend_life i a l)
extend_life-old i k a l le c = record {
  first = c.first;
  opened = extend_life-next i c.first a l c.opened;
  after_first = c.after_first;
  before_last = omega (arith, extend_life-last i a l);
}

-- Two lives of one extent.
record SameRange (l m : Life) : Type 0 where
  first : m.first_use ≡ l.first_use
  last : m.last_use ≡ l.last_use

SameRange-IsLife : {i : ℕ} {l m : Life} → SameRange l m → IsLife i l → IsLife i m
SameRange-IsLife {l = l} {m = m} same v = record {
  order = λ f e. omega (arith, same.last, v.order f (sym same.first ∙ e));
  ended = λ f e. omega (arith, same.last, v.ended f (sym same.first ∙ e));
}

SameRange-Covers : {k : ℕ} {l m : Life} → SameRange l m → Covers k l → Covers k m
SameRange-Covers same c = record {
  first = c.first;
  opened = same.first ∙ c.opened;
  after_first = c.after_first;
  before_last = omega (arith, same.last, c.before_last);
}

count : ResourceAccess → Life → Life
count a l = record l { live_access_count = suc l.live_access_count; sole_access = some a }

counted : (a : ResourceAccess) (l : Life) → SameRange l (count a l)
unfolding count
counted a l = record { first = refl; last = refl }

used : (kind : ResourceKind) (a : ResourceAccess) (l : Life) → SameRange l (add_usage kind a l)
used kind a l = record { first = (add_usage-lem kind a l).0; last = (add_usage-lem kind a l).1 }

pub touch-IsLife :
    (r : ResourceNode) (i : ℕ) (a : ResourceAccess) (l : Life)
    → IsLife i l
    → IsLife i (touch r i a l)
unfolding touch count
touch-IsLife r i a l v =
    let v' = SameRange-IsLife (counted a l) v in
    elim (Bool-cases (is_external r)) [
      | inl out ↦ rw out (SameRange-IsLife (used r.kind a (count a l)) v')
      | inr own ↦ rw own (
          SameRange-IsLife (used r.kind a (extend_life i a (count a l)))
            (extend_life-IsLife i a (count a l) v'))
    ]

pub touch-Covers :
    (r : ResourceNode) (i : ℕ) (a : ResourceAccess) (l : Life)
    → is_external r ≡ false
    → IsLife i l
    → Covers i (touch r i a l)
unfolding touch count
touch-Covers r i a l own v = rw own (
    SameRange-Covers (used r.kind a (extend_life i a (count a l)))
      (extend_life-Covers i a (count a l) (SameRange-IsLife (counted a l) v)))

pub touch-old :
    (r : ResourceNode) (i k : ℕ) (a : ResourceAccess) (l : Life)
    → k ≤ i
    → Covers k l
    → Covers k (touch r i a l)
unfolding touch count
touch-old r i k a l le c =
    let c' = SameRange-Covers (counted a l) c in
    elim (Bool-cases (is_external r)) [
      | inl out ↦ rw out (SameRange-Covers (used r.kind a (count a l)) c')
      | inr own ↦ rw own (
          SameRange-Covers (used r.kind a (extend_life i a (count a l)))
            (extend_life-old i k a (count a l) le c'))
    ]
