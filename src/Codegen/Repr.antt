-- ===== src/Codegen/Repr.antt =====
-- Machine values, crates/wsharp-codegen/src/repr.rs. `none` is an `unreachable!`, or the panic of
-- `args[0]` on a tagged type with no argument.
mod Agree
mod Tests
use wsharp.Prelude.{
  ℕ, zero, suc, ◌+◌, ◌/◌, Bool, Option, none, some, List, [], ◌∷◌, ltb, ◌==◌, if◌then◌else◌, length,
  map,
}
use wsharp.Sema.Ty.{
  Ty, IntTy, TyCon, var, con, nil, cons, int, bool, void, str, fn, optional, err_union, error,
  array, worker, error_set, struct, abstract,
}
use wsharp.Sema.Layout.{then_some, slot_size, ptr_offsets}

-- Cranelift's types of machine values.
pub data Machine : Type 0 where
  i8 i16 i32 i64 f64 : Machine

abbrev pub clif_int : IntTy → Option Machine
clif_int t =
    if t.bits == 8
    then some i8
    else if t.bits == 16
    then some i16
    else if t.bits == 32
    then some i32
    else if t.bits == 64
    then some i64
    else none

-- A tag of an optional is an `i8`, of an error union an `i32`, and a pointer is an `i64`.
unfoldable pub slot_types : Ty → Option (List Machine)
slot_types (con void ts) = some []
slot_types (con (int t) ts) = then_some (clif_int t) (λ m. some (m ∷ []))
slot_types (con TyCon.f64 ts) = some (f64 ∷ [])
slot_types (con bool ts) = some (i8 ∷ [])
slot_types (con error ts) = some (i32 ∷ [])
slot_types (con str ts) = some (i64 ∷ [])
slot_types (con (struct id) ts) = some (i64 ∷ [])
slot_types (con fn ts) = some (i64 ∷ [])
slot_types (con array ts) = some (i64 ∷ [])
slot_types (con (worker id) ts) = some (i64 ∷ [])
slot_types (con optional nil) = none
slot_types (con optional (cons a ts)) = then_some (slot_types a) (λ out. some (i8 ∷ out))
slot_types (con err_union nil) = none
slot_types (con err_union (cons a ts)) = then_some (slot_types a) (λ out. some (i32 ∷ out))
slot_types (con (error_set id) ts) = none
slot_types (con (abstract id) ts) = none
slot_types (var v) = none

abbrev pub max_ret_slots : ℕ
max_ret_slots = 2

unfoldable pub returns_by_pointer : Ty → Option Bool
unfolding slot_types
returns_by_pointer t = then_some (slot_types t) (λ out. some (ltb max_ret_slots (length out)))

unfoldable pub pointer_slots : Ty → Option (List ℕ)
unfolding ptr_offsets
pointer_slots t = then_some (ptr_offsets t 0) (λ at. some (map (λ o. o / slot_size) at))
