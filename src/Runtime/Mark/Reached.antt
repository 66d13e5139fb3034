-- ===== src/Runtime/Mark/Reached.antt =====
-- What is reached in a heap, for the marker of crates/wsharp-runtime/src/mark.rs.
use wsharp.Prelude.{
  ℕ, ◌+◌, ◌^◌, ◌<◌, ◌≡◌, refl, sym, ◌∙◌, ap, inl, inr, true, not, some, List, [], ◌∷◌, arith, ◌==◌,
  length, subst, some_inj, Bool-cases,
}
use wsharp.Runtime.Header.{header_size, is_marked}
use wsharp.Runtime.Memory.{object_at, put_object}
use wsharp.Runtime.Types.{Registry}
use wsharp.Runtime.Types.Visits.{AllWithin}
use wsharp.Runtime.Transfer.Slots.{AllWords}
use wsharp.Runtime.Transfer.Sent.{AllWords-map}
use wsharp.Runtime.Mark.{Cell, Heap, offsets_of, pointers_of, pending}
use wsharp.Runtime.Mark.Fields.{IsIn, IsField, IsCollectable, IsClosedPointer}
use wsharp.Runtime.Mark.Cells.{SameCell-offsets_of, IsLater}

-- An object whose pointers are inside it, and to objects of the heap or to nothing.
pub record IsTraceable (types : Registry) (heap : Heap) (c : Cell) : Type 0 where
  pub small : c.meta < 2 ^ 64
  pub within : AllWithin header_size (header_size + length c.body) (offsets_of types c)
  pub closed : AllWords (IsClosedPointer heap) (offsets_of types c) c.body

abbrev pub AllTraceable : Registry → Heap → Type 0
AllTraceable types heap = (p : ℕ) (c : Cell) → object_at p heap ≡ some c → IsTraceable types heap c

-- What a chain of pointers leads to from the roots.
pub data IsReachable (types : Registry) (heap : Heap) (roots : List ℕ) : ℕ → Type 0 where
  root : (p : ℕ) → IsIn p roots → IsReachable types heap roots p
  field :
      (p q : ℕ) (c : Cell)
      → IsReachable types heap roots p
      → object_at p heap ≡ some c
      → IsField (offsets_of types c) c.body q
      → IsCollectable heap q
      → IsReachable types heap roots q

pub IsReachable-object_at :
    (types : Registry) (heap : Heap) (roots : List ℕ) (q : ℕ)
    → ((p : ℕ) → IsIn p roots → (c : Cell) × (object_at p heap ≡ some c))
    → IsReachable types heap roots q
    → (c : Cell) × (object_at q heap ≡ some c)
IsReachable-object_at types heap roots q there (root _ h) = there q h
IsReachable-object_at types heap roots q there (field p _ c r at f (some_one, d, e, ours)) = (d, e)

module _ (types : Registry) (parity : ℕ) (heap heap' : Heap)
    (later : IsLater parity heap heap') where
  pub IsCollectable-later : (q : ℕ) → IsCollectable heap q → IsCollectable heap' q
  IsCollectable-later q (there, c, at, ours) =
      let (d, e, s, m) = later.forth q c at in (there, d, e, ap not s.flag ∙ ours)

  pub IsCollectable-earlier : (q : ℕ) → IsCollectable heap' q → IsCollectable heap q
  IsCollectable-earlier q (there, d, at, ours) =
      let (c, e, s, m) = later.back q d at in (there, c, e, ap not (sym s.flag) ∙ ours)

  IsClosedPointer-later : (s q : ℕ) → IsClosedPointer heap s q → IsClosedPointer heap' s q
  IsClosedPointer-later s q h there =
      let (c, at) = h there in let (d, e, same, m) = later.forth q c at in (d, e)

  pub AllTraceable-later : AllTraceable types heap → AllTraceable types heap'
  AllTraceable-later t p d at =
      let (c, e, s, m) = later.back p d at in
      let tc = t p c e in
      let offsets = sym (SameCell-offsets_of types c d s) in
      let body = sym s.body in
      record {
        small = s.small tc.small;
        within =
            subst (λ os. AllWithin header_size (header_size + length d.body) os) offsets
              (subst (λ b. AllWithin header_size (header_size + length b) (offsets_of types c)) body
                tc.within);
        closed =
            subst (λ os. AllWords (IsClosedPointer heap') os d.body) offsets
              (subst (λ b. AllWords (IsClosedPointer heap') (offsets_of types c) b) body
                (AllWords-map (IsClosedPointer heap) (IsClosedPointer heap') (offsets_of types c)
                  c.body IsClosedPointer-later tc.closed));
      }

-- Pointers of an object that is marked are pending no more.
pub pending-put :
    (types : Registry) (parity : ℕ) (heap : Heap) (p : ℕ) (c d : Cell)
    → object_at p heap ≡ some c
    → is_marked parity d.meta ≡ true
    → pending types parity (put_object p d heap) + pointers_of types c (is_marked parity c.meta)
      ≡ pending types parity heap
unfolding pending
pending-put types parity [] p c d at m = absurd (cc)
pending-put types parity ((q, x) ∷ rest) p c d at m = elim (Bool-cases (q == p)) [
  | inl hit ↦
      let same : x ≡ c = some_inj x c (sym (rw hit refl) ∙ at) in rw (hit, m, same) (omega arith)
  | inr miss ↦
      let later = pending-put types parity rest p c d (sym (rw miss refl) ∙ at) m in
      rw miss (omega (arith, later))
]
