-- ===== src/Codegen/Repr/Tests.antt =====
-- The machine slots of one type, and the theorem at it.
use wsharp.Prelude.{◌≡◌, refl, true, some, List, [], ◌∷◌, arith, length, get_elem?}
use wsharp.Sema.Ty.{Ty, con, nil, cons, str, optional, err_union}
use wsharp.Sema.Layout.{slot_count, ptr_offsets}
use wsharp.Codegen.Repr.{Machine, i8, i32, i64, slot_types, pointer_slots, returns_by_pointer}
use wsharp.Codegen.Repr.Agree.{HoldsPointer, slot_types-pointer_slots}

-- !?str
abbrev fallible : Ty
fallible = con err_union (cons (con optional (cons (con str nil) nil)) nil)

abbrev machine : List Machine
machine = i32 ∷ i8 ∷ i64 ∷ []

machine_run : slot_types fallible ≡ some machine
unfolding slot_types
machine_run = refl

slots_run : pointer_slots fallible ≡ some (2 ∷ [])
unfolding pointer_slots ptr_offsets
slots_run = refl

returns_run : returns_by_pointer fallible ≡ some true
unfolding returns_by_pointer slot_types
returns_run = refl

slot_types-pointer_slots_example :
    (slot_count fallible ≡ some 3)
    × (HoldsPointer fallible
        → (pointer_slots fallible ≡ some (2 ∷ []))
          × (3 ≡ length machine)
          × (get_elem? machine 2 ≡ some i64))
    × (¬ HoldsPointer fallible → pointer_slots fallible ≡ some [])
slot_types-pointer_slots_example =
    slot_types-pointer_slots fallible machine tt (omega arith) machine_run
