-- ===== src/Runtime/Mark/Tests.antt =====
-- Runs of the marker.
use wsharp.Prelude.{
  ℕ, zero, suc, ◌≡◌, refl, sym, ◌∙◌, inl, inr, Bool, true, false, none, some, List, [], ◌∷◌, arith,
  ◌==◌, Bool-cases, codes, some_inj, subst,
}
use wsharp.Prelude.Run.{ok}
use wsharp.Runtime.Memory.{object_at}
use wsharp.Runtime.Header.{type_id_of_meta, marked_bit, test_flag, is_marked, claim_mark}
use wsharp.Runtime.Types.{TypeLayout, Registry, fixed, info, for_each_ptr_offset}
use wsharp.Runtime.Transfer.Bytes.{word_at}
use wsharp.Runtime.Transfer.Slots.{AllWords}
use wsharp.Runtime.Mark.{Cell, Heap, mark_fields, mark_loop, pending, mark_all}
use wsharp.Runtime.Mark.Fields.{IsIn, IsClosedPointer}
use wsharp.Runtime.Mark.Reached.{IsTraceable, AllTraceable}
use wsharp.Runtime.Mark.Traced.{NoneMarked, IsTraced, starting, mark_all-IsTraced}

-- Two pointer fields, at 16 and 24.
abbrev node : TypeLayout
node = fixed (codes "Node") 32 (16 ∷ 24 ∷ [])

abbrev types : Registry
types = record { layouts = (0, node) ∷ []; published = some (some node ∷ []) }

abbrev two_words : ℕ → ℕ → List ℕ
two_words a b = a ∷ 0 ∷ 0 ∷ 0 ∷ 0 ∷ 0 ∷ 0 ∷ 0 ∷ b ∷ 0 ∷ 0 ∷ 0 ∷ 0 ∷ 0 ∷ 0 ∷ 0 ∷ []

abbrev node_of : ℕ → ℕ → ℕ → Cell
node_of meta a b = record { meta = meta; aux = 0; body = two_words a b }

-- A cycle of two, and one that points to it.
abbrev three : ℕ → ℕ → ℕ → Heap
three a b c = (16, node_of a 48 48) ∷ (48, node_of b 16 0) ∷ (80, node_of c 16 0) ∷ []

abbrev in_block : ℕ → Bool
in_block q = q == 48

abbrev never : ℕ → Bool
never n = false

-- The cycle is marked, and the two pointers to the object that leaves its block are noted.
mark_all_run :
    mark_all types marked_bit in_block never
      (three 0 0 0)
      (record { work = 16 ∷ []; remembered = [] })
    ≡ ok (true, three marked_bit marked_bit 0, record { work = []; remembered = 40 ∷ 32 ∷ [] })
unfolding mark_all mark_loop mark_fields pending claim_mark is_marked test_flag type_id_of_meta info
    for_each_ptr_offset word_at
mark_all_run = refl

node_of-IsTraceable :
    (a b : ℕ)
    → AllWords (IsClosedPointer (three 0 0 0)) (16 ∷ 24 ∷ []) (two_words a b)
    → IsTraceable types (three 0 0 0) (node_of 0 a b)
unfolding type_id_of_meta info for_each_ptr_offset
node_of-IsTraceable a b closed = record {
  small = omega arith;
  within = (omega arith, omega arith, (omega arith, omega arith, tt));
  closed = closed;
}

first-IsTraceable : IsTraceable types (three 0 0 0) (node_of 0 48 48)
unfolding word_at
first-IsTraceable =
    node_of-IsTraceable 48 48 ((λ h. (node_of 0 16 0, refl)), ((λ h. (node_of 0 16 0, refl)), tt))

second-IsTraceable : IsTraceable types (three 0 0 0) (node_of 0 16 0)
unfolding word_at
second-IsTraceable =
    node_of-IsTraceable 16 0 ((λ h. (node_of 0 48 48, refl)), ((λ h. absurd (h refl)), tt))

-- Each object of the heap is one of these.
three-cases :
    (P : Cell → Type 0) (p : ℕ) (c : Cell)
    → P (node_of 0 48 48)
    → P (node_of 0 16 0)
    → object_at p (three 0 0 0) ≡ some c
    → P c
three-cases P p c x y e = elim (Bool-cases (16 == p)) [
  | inl hit ↦ subst P (some_inj (node_of 0 48 48) c (sym (rw hit refl) ∙ e)) x
  | inr miss ↦ elim (Bool-cases (48 == p)) [
    | inl hit ↦ subst P (some_inj (node_of 0 16 0) c (sym (rw (miss, hit) refl) ∙ e)) y
    | inr other ↦ elim (Bool-cases (80 == p)) [
      | inl hit ↦ subst P (some_inj (node_of 0 16 0) c (sym (rw (miss, other, hit) refl) ∙ e)) y
      | inr last ↦
          let none_there : object_at p (three 0 0 0) ≡ none = rw (miss, other, last) refl in
          let clash : none ≡ some c = sym none_there ∙ e in absurd (cc)
    ]
  ]
]

three-AllTraceable : AllTraceable types (three 0 0 0)
three-AllTraceable p c =
    three-cases (IsTraceable types (three 0 0 0)) p c first-IsTraceable second-IsTraceable

three-NoneMarked : NoneMarked marked_bit (three 0 0 0)
unfolding is_marked
three-NoneMarked p c = three-cases (λ d. is_marked marked_bit d.meta ≡ false) p c refl refl

roots_there : (p : ℕ) → IsIn p (16 ∷ []) → (c : Cell) × (object_at p (three 0 0 0) ≡ some c)
roots_there p (zero, e) = (
  node_of 0 48 48,
  sym (subst (λ q. object_at 16 (three 0 0 0) ≡ object_at q (three 0 0 0)) (some_inj 16 p e) refl),
)
roots_there p (suc k, e) = absurd (cc)

mark_all-IsTraced_example :
    IsTraced types marked_bit in_block never
      (three 0 0 0)
      (16 ∷ [])
      (inr refl)
      three-AllTraceable
      roots_there
      (mark_all types marked_bit in_block never (three 0 0 0) (starting (16 ∷ [])))
mark_all-IsTraced_example =
    mark_all-IsTraced types marked_bit in_block never (three 0 0 0) (16 ∷ []) (inr refl)
      three-AllTraceable roots_there three-NoneMarked (λ n. refl)
