-- ===== src/Runtime/Mark.antt =====
-- The marker, `mark_all` of crates/wsharp-runtime/src/mark.rs, while the program does not write. The heap is a
-- list of addresses and objects, those of the data section among them; an object is its meta word, its `aux`
-- word and the bytes after its header. A vector that is pushed to and popped from is a list that begins with
-- its last. `evacuating` is `heap::is_evacuating`, and `stop` says of a number of visits whether `abandoning`
-- answers yes then. A read where no object is, or past its end, is a panic.
pub mod Fields
pub mod Cells
pub mod Reached
pub mod Rounds
pub mod Visit
pub mod Traced
mod Tests
use wsharp.Prelude.{
  ℕ, zero, suc, ◌+◌, ◌-◌, ◌%◌, ◌^◌, Bool, true, false, not, ◌&&◌, Option, none, some, List, [], ◌∷◌,
  ◌==◌, if◌then◌else◌, length,
}
use wsharp.Prelude.Run.{Run, ok, panic, out_of_fuel, then_run}
use wsharp.Runtime.Memory.{object_at, put_object}
use wsharp.Runtime.Header.{header_size, type_id_of_meta, immortal, test_flag, is_marked, claim_mark}
use wsharp.Runtime.Types.{TypeInfo, Registry, info, for_each_ptr_offset}
use wsharp.Runtime.Transfer.{or_panic, read_word}

pub record Cell : Type 0 where
  pub meta : ℕ
  pub aux : ℕ
  pub body : List ℕ

abbrev pub Heap : Type 0
Heap = List (ℕ × Cell)

-- `is_collectable`.
abbrev pub collectable_cell : Cell → Bool
collectable_cell c = not (test_flag c.meta immortal)

abbrev pub is_collectable : Heap → ℕ → Run Bool
is_collectable heap p =
    if p == 0
    then ok false
    else then_run (or_panic (object_at p heap)) (λ c. ok (collectable_cell c))

-- The vectors that the marker pushes to.
pub record Marker : Type 0 where
  pub work : List ℕ
  pub remembered : List ℕ

-- What is pushed for a field that was read from `slot`.
abbrev pub push_field : (ℕ → Bool) → ℕ → ℕ → Marker → Bool → Marker
push_field evacuating slot field m false = m
push_field evacuating slot field m true = record {
  work = field ∷ m.work;
  remembered = if evacuating field then slot ∷ m.remembered else m.remembered;
}

-- The closure that is called for each offset of the object at `p`.
unfoldable pub mark_fields : (ℕ → Bool) → Heap → ℕ → List ℕ → List ℕ → Marker → Run Marker
mark_fields evacuating heap p body [] m = ok m
mark_fields evacuating heap p body (offset ∷ offsets) m =
    then_run (read_word body (offset - header_size)) (λ field.
      then_run (is_collectable heap field) (λ ours.
        mark_fields evacuating heap p body offsets
          (push_field evacuating (p + offset) field m ours)))

-- The offsets of the pointers of a cell.
abbrev pub offsets_by : ℕ → Option TypeInfo → List ℕ
offsets_by aux none = []
offsets_by aux (some i) = for_each_ptr_offset aux i

abbrev pub offsets_of : Registry → Cell → List ℕ
offsets_of types c = offsets_by c.aux (info (type_id_of_meta c.meta) types)

-- The pointers of the objects that are not marked yet.
abbrev pub pointers_of : Registry → Cell → Bool → ℕ
pointers_of types c true = 0
pointers_of types c false = length (offsets_of types c)

unfoldable pub pending : Registry → ℕ → Heap → ℕ
pending types parity [] = 0
pending types parity ((p, c) ∷ rest) =
    pointers_of types c (is_marked parity c.meta) + pending types parity rest

module _ (types : Registry) (parity : ℕ) (evacuating : ℕ → Bool) (stop : ℕ → Bool) where
  -- The work on an object, by whether this call marked it.
  abbrev pub mark_cell : Heap → ℕ → Cell → Marker → Bool → Run Marker
  mark_cell heap p c m false = ok m
  mark_cell heap p c m true = mark_fields evacuating heap p c.body (offsets_of types c) m

  abbrev pub mark_object : Heap → ℕ → Marker → Run (Heap × Marker)
  mark_object heap p m = then_run (or_panic (object_at p heap)) (λ c.
      let (meta, claimed) = claim_mark parity c.meta in
      let c' = record c { meta = meta } in
      let heap' = put_object p c' heap in
      then_run (mark_cell heap' p c' m claimed) (λ m'. ok (heap', m')))

  -- A round of the `while`, after `visited` visits. The result is false if the marker was told to stop.
  abbrev pub mark_round :
      (ℕ → Heap → Marker → Run (Bool × Heap × Marker))
      → ℕ
      → Heap
      → Marker
      → List ℕ
      → Run (Bool × Heap × Marker)
  mark_round rec visited heap m [] = ok (true, heap, m)
  mark_round rec visited heap m (p ∷ work) =
      let m' = record m { work = work } in
      let go = then_run (mark_object heap p m') (λ (heap', m2). rec (visited + 1) heap' m2) in
      if ((visited + 1) % 4096 == 0) && stop (visited + 1) then ok (false, heap, m') else go

  unfoldable pub mark_loop : ℕ → ℕ → Heap → Marker → Run (Bool × Heap × Marker)
  mark_loop zero visited heap m = out_of_fuel
  mark_loop (suc f) visited heap m = mark_round (mark_loop f) visited heap m m.work

  -- A round for each entry of the work list, one for each pointer of an object that is not marked, and one more.
  unfoldable pub mark_all : Heap → Marker → Run (Bool × Heap × Marker)
  mark_all heap m = mark_loop (suc (length m.work + pending types parity heap)) 0 heap m
