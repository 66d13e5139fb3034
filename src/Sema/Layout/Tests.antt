-- ===== src/Sema/Layout/Tests.antt =====
-- Layouts of a few types, and the theorems at these inputs.
use wsharp.Prelude.{ℕ, ◌+◌, ◌≤◌, ◌≡◌, refl, inl, inr, true, some, List, [], ◌∷◌, arith}
use wsharp.Sema.Ty.{Ty, con, nil, cons, int, bool, str, optional, err_union}
use wsharp.Sema.Layout.{slot_count, size_of, align_of, ptr_offsets, place, elem_layout}
use wsharp.Sema.Layout.Place.{room, IsPlaced, place-IsPlaced}

abbrev i16 : Ty
i16 = con (int (record { signed = true; bits = 16 })) nil

abbrev flag : Ty
flag = con bool nil

-- !?str
abbrev fallible : Ty
fallible = con err_union (cons (con optional (cons (con str nil) nil)) nil)

-- { flag: bool, n: i16, name: !?str, done: bool }
abbrev fields : List Ty
fields = flag ∷ i16 ∷ fallible ∷ flag ∷ []

fields_run : place fields 16 ≡ some (16 ∷ 18 ∷ 24 ∷ 48 ∷ [], 49)
unfolding place size_of slot_count align_of
fields_run = refl

elem_run : elem_layout fallible ≡ some (24, 16 ∷ [])
unfolding elem_layout size_of slot_count ptr_offsets
elem_run = refl

place-IsPlaced_example :
    (os : List ℕ) × (end : ℕ) × (place fields 16 ≡ some (os, end))
    × IsPlaced fields 16 os end
    × (16 ≤ end)
    × (end ≤ 16 + room fields)
place-IsPlaced_example =
    place-IsPlaced fields 16
      (tt, omega arith, (inr (inl refl), omega arith, (tt, omega arith, (tt, omega arith, tt))))
      (omega arith)
