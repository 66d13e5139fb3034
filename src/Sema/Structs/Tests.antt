-- ===== src/Sema/Structs/Tests.antt =====
-- Three structs, and the theorems on them.
use wsharp.Prelude.{
  ℕ, ◌≡◌, ◌≢◌, refl, ◌⊎◌, inl, inr, true, false, none, some, [], ◌∷◌, arith, get_elem?,
}
use wsharp.Sema.Store.{TypeStore, ok, new}
use wsharp.Sema.Structs.{is_subtype, set_struct_parent, declare_struct}
use wsharp.Sema.Structs.Chains.{Inherits, Ends, Answers, is_subtype_total, set_struct_parent-Ends}

-- Struct 1 inherits from 0, 2 from none.
abbrev store : TypeStore
store = record new {
  struct_names = "Shape" ∷ "Circle" ∷ "Ring" ∷ [];
  struct_parents = none ∷ some 0 ∷ none ∷ [];
}

two_run : (declare_struct "Circle" (declare_struct "Shape" new).1).0 ≡ 1
unfolding declare_struct
two_run = refl

up_run : is_subtype 3 1 0 store ≡ ok true
unfolding is_subtype
up_run = refl

down_run : is_subtype 3 0 1 store ≡ ok false
unfolding is_subtype
down_run = refl

is_subtype_total_example :
    (is_subtype 3 1 0 store ≡ ok true) × Inherits store.struct_parents 1 0
    ⊎ (is_subtype 3 1 0 store ≡ ok false) × ¬ Inherits store.struct_parents 1 0
is_subtype_total_example =
    is_subtype_total 2 3 store 1 0 (omega arith) (some 0, refl, (none, refl, tt))

-- Struct 1 does not inherit from 2.
apart : ¬ Inherits store.struct_parents 1 2
unfolding is_subtype
apart = elim (is_subtype_total 2 3 store 1 2 (omega arith) (some 0, refl, (none, refl, tt))) [
  | inl (e, h) ↦ absurd (cc)
  | inr (e, h) ↦ h
]

set_struct_parent-Ends_example :
    (t : TypeStore) × (set_struct_parent 2 1 store ≡ ok t)
    × (get_elem? t.struct_parents 2 ≡ some (some 1))
    × ((a : ℕ) → 2 ≢ a → get_elem? t.struct_parents a ≡ get_elem? store.struct_parents a)
    × (t ≡ record store { struct_parents = t.struct_parents })
    × ((n a : ℕ)
        → Ends store.struct_parents n (some a)
        → (k : ℕ) × Ends t.struct_parents k (some a) × Answers k a t)
    × ((k : ℕ) × (is_subtype k 2 1 t ≡ ok true))
set_struct_parent-Ends_example =
    set_struct_parent-Ends store 2 1 none 2 refl (some 0, refl, (none, refl, tt)) apart
