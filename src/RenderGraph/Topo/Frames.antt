-- ===== src/RenderGraph/Topo/Frames.antt =====
-- The invariant of the search.
use alpenite.Prelude.{
  ℕ, ◌<◌, ◌≡◌, ◌≢◌, ◌⊎◌, inl, inr, true, false, List, [], ◌∷◌, ◌++◌, map, sym, subst, append-nil,
  append_assoc, contains, IsDistinct, ℕ_discrete, arith, contains-append_left, contains-append_none,
}
use alpenite.RenderGraph.Depends.{
  Has, DependsOn, not-Has-nil, not-Has-one, Has-cons_self, Has-cons, Has-cons_cases,
}
use alpenite.RenderGraph.Topo.Defs.{Dfs}

-- The passes on the stack.
abbrev pub nodes : List (ℕ × List ℕ) → List ℕ
nodes = map (λ f. f.0)

-- The passes that the search has met: done, or on the stack.
abbrev pub Seen : Dfs → ℕ → Type 0
Seen s v = Has s.order v ⊎ Has (nodes s.stack) v

module _ (adjacency : ℕ → List ℕ) where
  -- Each entry of the list comes after all that it depends on; `seen` stands before the list.
  abbrev pub IsSorted : List ℕ → List ℕ → Type 0
  IsSorted seen [] = Unit {0}
  IsSorted seen (v ∷ rest) =
      ((d : ℕ) → Has (adjacency v) d → Has seen d) × IsSorted (seen ++ v ∷ []) rest

  pub IsSorted-snoc :
      (seen xs : List ℕ) (v : ℕ)
      → IsSorted seen xs
      → ((d : ℕ) → Has (adjacency v) d → Has (seen ++ xs) d)
      → IsSorted seen (xs ++ v ∷ [])
  IsSorted-snoc seen [] v h all = ((λ d e. subst (λ l. Has l d) (append-nil seen) (all d e)), tt)
  IsSorted-snoc seen (x ∷ xs) v (h, hs) all = (
    h,
    IsSorted-snoc (seen ++ x ∷ []) xs v hs
        (λ d e. subst (λ l. Has l d) (sym (append_assoc seen (x ∷ []) xs)) (all d e)),
  )

  -- A frame waits for what is left of its list and for the frame above it; all else that its pass
  -- depends on is in the order. Down the stack the passes grow.
  pub record IsFrame (order above : List ℕ) (v : ℕ) (rest : List ℕ) : Type 0 where
    pub waits : (d : ℕ) → Has (adjacency v) d → Has order d ⊎ (Has rest d ⊎ Has above d)
    pub part : (d : ℕ) → Has rest d → Has (adjacency v) d
    pub later : (c : ℕ) → Has above c → c < v
    pub absent : contains ℕ_discrete order v ≡ false

  abbrev pub Frames : List ℕ → List ℕ → List (ℕ × List ℕ) → Type 0
  Frames order above [] = Unit {0}
  Frames order above ((v, rest) ∷ below) = IsFrame order above v rest × Frames order (v ∷ []) below

  pub Frames-later :
      (order above : List ℕ) (stack : List (ℕ × List ℕ)) (c : ℕ)
      → Frames order above stack
      → Has above c
      → (u : ℕ) → Has (nodes stack) u
      → c < u
  Frames-later order above [] c f h u k = absurd (not-Has-nil u k)
  Frames-later order above ((v, rest) ∷ below) c (f, fs) h u k =
      elim (Has-cons_cases v u (nodes below) k) [
        | inl e ↦ omega (arith, f.later c h)
        | inr deep ↦
            omega (
              arith,
              f.later c h,
              Frames-later order (v ∷ []) below v fs (Has-cons_self v []) u deep,
            )
      ]

  -- One more entry in the order, which is not on the stack.
  pub Frames-order :
      (order above : List ℕ) (x : ℕ) (stack : List (ℕ × List ℕ))
      → ((u : ℕ) → Has (nodes stack) u → x ≢ u)
      → Frames order above stack
      → Frames (order ++ x ∷ []) above stack
  Frames-order order above x [] ne f = tt
  Frames-order order above x ((v, rest) ∷ below) ne (f, fs) = (
    record {
      waits = λ d e. elim (f.waits d e) [
        | inl here ↦ inl (contains-append_left ℕ_discrete order (x ∷ []) d here)
        | inr there ↦ inr there
      ];
      part = f.part;
      later = f.later;
      absent =
          contains-append_none ℕ_discrete order (x ∷ []) v f.absent
            (not-Has-one x v (ne v (Has-cons_self v (nodes below))));
    },
    Frames-order order (v ∷ []) x below (λ u k. ne u (Has-cons v u (nodes below) k)) fs,
  )

  -- The frame above is done.
  pub Frames-done :
      (order : List ℕ) (p : ℕ) (stack : List (ℕ × List ℕ))
      → Has order p
      → Frames order (p ∷ []) stack
      → Frames order [] stack
  Frames-done order p [] h f = tt
  Frames-done order p ((v, rest) ∷ below) h (f, fs) = (
    record {
      waits = λ d e. elim (f.waits d e) [
        | inl here ↦ inl here
        | inr more ↦ elim more [
          | inl left ↦ inr (inl left)
          | inr above ↦ elim (Has-cons_cases p d [] above) [
            | inl same ↦ inl (subst (Has order) same h)
            | inr none ↦ inr (inr none)
          ]
        ]
      ];
      part = f.part;
      later = λ c e. absurd (not-Has-nil c e);
      absent = f.absent;
    },
    fs,
  )

module _ (adjacency : ℕ → List ℕ) (Root : ℕ → Type 0) (n : ℕ) where
  -- A root depends on the pass.
  abbrev pub Feeds : ℕ → Type 0
  Feeds v = (r : ℕ) × Root r × DependsOn adjacency r v

  pub record Inv (s : Dfs) : Type 0 where
    pub frames : Frames adjacency s.order [] s.stack
    pub placed_seen : (v : ℕ) → s.placed v ≡ true → Seen s v
    pub seen_placed : (v : ℕ) → Seen s v → s.placed v ≡ true
    pub stacked : (v : ℕ) → s.on_stack v ≡ true → Has (nodes s.stack) v
    pub sorted : IsSorted adjacency [] s.order
    pub distinct : IsDistinct ℕ_discrete s.order
    pub acyclic : s.had_cycle ≡ false
    pub feeds : (v : ℕ) → Seen s v → Feeds v
    pub below : (v : ℕ) → Seen s v → v < n
