-- ===== src/RenderGraph/Record/Clean.antt =====
-- A recorded pass has no two accesses to one resource that conflict, as use() asserts.
use alpenite.Prelude.{
  ◌^◌, ◌<◌, ◌≡◌, refl, sym, subst, ◌∙◌, arith, Bool, true, false, not, ◌&&◌, ◌||◌, Option, none,
  some, List, [], ◌∷◌, ◌++◌, All, All-append, Bool-cases, inl, inr, ◌==◌, ==_iff, if◌then◌else◌,
}
use alpenite.RenderGraph.Access.{ResourceAccess, in_pass_accesses_conflict}
use alpenite.RenderGraph.Nodes.{PassNode}
use alpenite.RenderGraph.Record.Calls.{◌>>=◌}
use alpenite.RenderGraph.Record.Defs.{
  Graph, q_assert, Use, is_transfer, access_allows_kind, is_current_handle, use_then, Finish,
  part_of_use, part_of, conflicts, any_conflict, access_of, append_access,
}

-- No two accesses to one resource conflict; the later one is tested against the earlier.
abbrev pub IsApart : ResourceAccess → ResourceAccess → Type 0
IsApart a b = b.handle.id ≡ a.handle.id → in_pass_accesses_conflict (part_of b) (part_of a) ≡ false

abbrev pub IsClean : List ResourceAccess → Type 0
IsClean [] = Unit
IsClean (a ∷ accesses) = All (IsApart a) accesses × IsClean accesses

snoc-IsClean :
    (accesses : List ResourceAccess) (b : ResourceAccess)
    → IsClean accesses
    → All (λ a. IsApart a b) accesses
    → IsClean (accesses ++ b ∷ [])
snoc-IsClean [] b h k = (tt, tt)
snoc-IsClean (a ∷ accesses) b h k =
    (All-append (IsApart a) accesses (b ∷ []) h.0 (k.0, tt), snoc-IsClean accesses b h.1 k.1)

-- The fields of an access are wide enough for the arguments of use().
pub record IsNarrow (u : Use) : Type 0 where
  pub mip : u.sub.mip < 2 ^ 8
  pub layer : u.sub.layer < 2 ^ 16
  pub mips : u.range.mip_count < 2 ^ 8
  pub layers : u.range.layer_count < 2 ^ 16

-- A caller of use() changes neither the resource nor the part of it.
pub record IsFinish (finish : Finish) : Type 0 where
  pub same_id : (a : ResourceAccess) → (finish a).handle.id ≡ a.handle.id
  pub same_part : (a : ResourceAccess) → part_of (finish a) ≡ part_of a

part_of-access_of : (u : Use) → IsNarrow u → part_of (access_of u) ≡ part_of_use u
unfolding part_of access_of part_of_use
part_of-access_of u n = ground arith

access_of_id : (u : Use) → (access_of u).handle.id ≡ u.handle.id
unfolding access_of
access_of_id u = refl

or_false : (b c : Bool) → (b || c) ≡ false → (b ≡ false) × (c ≡ false)
or_false true c h = absurd (cc)
or_false false c h = (refl, h)

and_true : (b c : Bool) → b ≡ true → (b && c) ≡ false → c ≡ false
and_true true c e h = h
and_true false c e h = absurd (cc)

none_met : (b c : Bool) → b ≡ false → (b || not c) ≡ true → c ≡ false
none_met true c e h = absurd (cc)
none_met false true e h = absurd (cc)
none_met false false e h = refl

any_conflict_none :
    (u : Use) (b : ResourceAccess) (accesses : List ResourceAccess)
    → part_of b ≡ part_of_use u
    → b.handle.id ≡ u.handle.id
    → any_conflict u accesses ≡ false
    → All (λ a. IsApart a b) accesses
unfolding any_conflict conflicts
any_conflict_none u b [] e f h = tt
any_conflict_none u b (a ∷ accesses) e f h =
    let (here, later) = or_false (conflicts u a) (any_conflict u accesses) h in
    (
      (λ same.
          let met : (a.handle.id == u.handle.id) ≡ true =
            (==_iff a.handle.id u.handle.id).1 (sym same ∙ f) in
          let apart : in_pass_accesses_conflict (part_of_use u) (part_of a) ≡ false =
            and_true (a.handle.id == u.handle.id) _ met here in
          subst (λ x. in_pass_accesses_conflict x (part_of a) ≡ false) (sym e) apart),
      any_conflict_none u b accesses e f later,
    )

-- What the calls keep: the kind of the pass, and that its accesses are clean.
abbrev pub IsKept : PassNode → Type 0
IsKept p = (is_transfer p.kind ≡ false) × IsClean p.accesses

-- A call ends the program or keeps it.
abbrev pub Keeps : Option PassNode → Type 0
Keeps none = Unit
Keeps (some p) = IsKept p

pub q_assert-Keeps : (g : Graph) (b : Bool) (o : Option PassNode) → Keeps o → Keeps (q_assert g b o)
unfolding q_assert
q_assert-Keeps g true o h = h
q_assert-Keeps g false o h = elim (Bool-cases g.asserts) [
  | inl on ↦ rw (on, q_assert) tt
  | inr off ↦ rw (off, q_assert) h
]

-- Where the assertions are on, a failed one ends the program.
pub q_assert_on :
    (g : Graph) (b : Bool) (o : Option PassNode)
    → g.asserts ≡ true
    → (b ≡ true → Keeps o)
    → Keeps (q_assert g b o)
unfolding q_assert
q_assert_on g true o on h = h refl
q_assert_on g false o on h = rw (on, q_assert) tt

pub if-Keeps : (b : Bool) (x y : Option PassNode) → Keeps x → Keeps y → Keeps (if b then x else y)
if-Keeps true x y h k = h
if-Keeps false x y h k = k

pub >>=-Keeps :
    (o : Option PassNode) (f : PassNode → Option PassNode)
    → Keeps o
    → ((p : PassNode) → IsKept p → Keeps (f p))
    → Keeps (o >>= f)
>>=-Keeps none f h k = tt
>>=-Keeps (some p) f h k = k p h

pub use_then-Keeps :
    (g : Graph) (p : PassNode) (u : Use) (finish : Finish)
    → g.asserts ≡ true
    → IsNarrow u
    → IsFinish finish
    → IsKept p
    → Keeps (use_then g p u finish)
unfolding use_then append_access
use_then-Keeps g p u finish on narrow f kept =
    let appended = some (append_access (finish (access_of u)) p) in
    let free = is_transfer p.kind || not (any_conflict u p.accesses) in
    q_assert-Keeps g (is_current_handle g u.handle)
      (q_assert g (access_allows_kind u.type u.handle.kind) (q_assert g free appended))
      (q_assert-Keeps g (access_allows_kind u.type u.handle.kind) (q_assert g free appended) (
        q_assert_on g free appended on (λ apart. (
          kept.0,
          snoc-IsClean p.accesses (finish (access_of u)) kept.1 (
              any_conflict_none u (finish (access_of u)) p.accesses
                (f.same_part (access_of u) ∙ part_of-access_of u narrow)
                (f.same_id (access_of u) ∙ access_of_id u)
                (none_met (is_transfer p.kind) (any_conflict u p.accesses) kept.0 apart)),
        ))))
