-- ===== src/Runtime/Heap/Tests.antt =====
-- Runs on a space of the heap.
use wsharp.Prelude.{
  ◌+◌, sym, ◌∙◌, subst, get_elem?, ℕ, ◌<◌, ◌≡◌, refl, Option, none, some, List, [], ◌∷◌, arith,
  length, replicate,
}
use wsharp.Prelude.Run.{Run, ok}
use wsharp.Runtime.Heap.{
  SpaceMeta, BlockState, open_block, full, evacuating, close_block, space_new, space_blocks, occupy,
  find_hole,
}
use wsharp.Runtime.Heap.Placed.{IsPlaced, find_hole-occupy}
use wsharp.Runtime.Heap.Evacuation.{select_loop}
use wsharp.Runtime.Heap.Evacuation.Sparse.{IsSelected, Counted, select_loop-IsSelected}
use wsharp.Runtime.Heap.Holes.{Found, find_hole-Found}
use wsharp.Runtime.Heap.Lines.Objects.{Object, IsObject, touching, Exact}
use wsharp.Runtime.Heap.Lines.Calls.{
  occupy-Exact, here, there, Calls, done, occupies, vacates, run_calls, run_calls-Exact,
}
use wsharp.Runtime.Heap.Apart.{IsRoom, find_hole-IsRoom}
use wsharp.Runtime.Heap.Closed.{Says, close_block-Says}
use wsharp.Runtime.Heap.Fresh.{zeros-Exact, space_new-Exact, touching_le_length}

-- One block of a space, with an object on its first two lines.
abbrev one_block : SpaceMeta
one_block = record {
  base = 32768;
  states = open_block ∷ [];
  line_objects = 1 ∷ 1 ∷ replicate 126 0;
  live_lines = 2 ∷ [];
  starts = replicate 32 0;
}

find_hole_run : find_hole one_block 0 0 100 ≡ ok (some (33280, 65536))
unfolding find_hole
find_hole_run = refl

no_hole_run : find_hole one_block 0 0 32300 ≡ ok none
unfolding find_hole
no_hole_run = refl

abbrev live : Run SpaceMeta → List ℕ
live (ok m) = m.live_lines
live _ = []

occupy_run : live (occupy one_block 33200 100) ≡ 3 ∷ []
unfolding occupy
occupy_run = refl

find_hole-Found_example :
    (r : Option (ℕ × ℕ)) × (find_hole one_block 0 0 100 ≡ ok r) × Found one_block 0 0 100 r
find_hole-Found_example = find_hole-Found one_block 0 100 0 (omega arith)

few : (at : ℕ) (objs : List Object) → length objs < 256 → (line : ℕ) → touching at line objs < 256
few at objs h line = omega (arith, h, touching_le_length at line objs)

-- Two objects, that share a line, in the second block of a new space.
abbrev base : ℕ
base = (space_new 32768).base

abbrev long : Object
long = (65536, 300)

abbrev short : Object
short = (65840, 32)

abbrev objects : List Object
objects = short ∷ []

long-IsObject : IsObject base space_blocks long
unfolding space_new
long-IsObject = record {
  at_base = omega arith;
  some_byte = omega arith;
  one_block = refl;
  in_space = omega arith;
}

short-IsObject : IsObject base space_blocks short
unfolding space_new
short-IsObject = record {
  at_base = omega arith;
  some_byte = omega arith;
  one_block = refl;
  in_space = omega arith;
}

-- Both are occupied, then the first is vacated.
calls : Calls base space_blocks [] objects
calls = occupies long long-IsObject (few base (long ∷ []) (omega arith)) (
    occupies short short-IsObject (few base (short ∷ long ∷ []) (omega arith))
      (vacates long (there long short (long ∷ []) [] (here long [])) (done objects)))

run_calls-Exact_example :
    (m : SpaceMeta) × (run_calls calls (space_new 32768) ≡ ok m) × Exact base space_blocks objects m
run_calls-Exact_example =
    run_calls-Exact base space_blocks [] objects (space_new 32768) calls (space_new-Exact 32768)

abbrev empty_block : SpaceMeta
empty_block = record one_block { line_objects = replicate 128 0; live_lines = 0 ∷ [] }

abbrev first_object : Object
first_object = (32768, 300)

first-IsObject : IsObject 32768 1 first_object
first-IsObject = record {
  at_base = omega arith;
  some_byte = omega arith;
  one_block = refl;
  in_space = omega arith;
}

occupy_first : occupy empty_block 32768 300 ≡ ok one_block
unfolding occupy
occupy_first = refl

ok_inj : (a b : SpaceMeta) → ok a ≡ ok b → a ≡ b
ok_inj a b e = cc

one_block-Exact : Exact 32768 1 (first_object ∷ []) one_block
one_block-Exact =
    let empty = zeros-Exact 32768 1 empty_block refl refl refl in
    let room = few 32768 (first_object ∷ []) (omega arith) in
    let (m, runs, exact) =
      occupy-Exact 32768 1 empty_block [] first_object empty first-IsObject room in
    subst (Exact 32768 1 (first_object ∷ [])) (ok_inj m one_block (sym runs ∙ occupy_first)) exact

close_block-Says_example :
    (m : SpaceMeta) × (state : BlockState) × (close_block one_block 0 ≡ ok m)
    × (get_elem? m.states 0 ≡ some state)
    × Exact 32768 1 (first_object ∷ []) m
    × Says 32768 (first_object ∷ []) one_block 0 state
close_block-Says_example =
    close_block-Says 32768 1 (first_object ∷ []) one_block 0 one_block-Exact refl (omega arith) refl

find_hole-IsRoom_example :
    (r : Option (ℕ × ℕ)) × (find_hole one_block 0 0 4096 ≡ ok r)
    × IsRoom 32768 0 4096 (first_object ∷ []) r
find_hole-IsRoom_example =
    find_hole-IsRoom 32768 1 (first_object ∷ []) one_block 0 0 4096 one_block-Exact (omega arith)

abbrev whole_object : Object
whole_object = (32768, 320)

occupy_whole : occupy empty_block 32768 320 ≡ ok one_block
unfolding occupy
occupy_whole = refl

whole-IsObject : IsObject 32768 1 whole_object
whole-IsObject = record {
  at_base = omega arith;
  some_byte = omega arith;
  one_block = refl;
  in_space = omega arith;
}

whole-Exact : Exact 32768 1 (whole_object ∷ []) one_block
whole-Exact =
    let empty = zeros-Exact 32768 1 empty_block refl refl refl in
    let room = few 32768 (whole_object ∷ []) (omega arith) in
    let (m, runs, exact) =
      occupy-Exact 32768 1 empty_block [] whole_object empty whole-IsObject room in
    subst (Exact 32768 1 (whole_object ∷ [])) (ok_inj m one_block (sym runs ∙ occupy_whole)) exact

find_hole-occupy_example :
    (r : Option (ℕ × ℕ)) × (find_hole one_block 0 0 4096 ≡ ok r)
    × IsPlaced 32768 1 (whole_object ∷ []) one_block 4096 r
find_hole-occupy_example =
    find_hole-occupy 32768 1 (whole_object ∷ []) one_block 0 0 4096 whole-Exact
      (
        record { at_base = omega arith; starts = refl; ends = refl; some_byte = omega arith },
        tt,
        tt,
      )
      (omega arith) refl (omega arith)

-- A full block and one that an allocator holds.
abbrev two_blocks : SpaceMeta
two_blocks = record {
  base = 0;
  states = full ∷ open_block ∷ [];
  line_objects = [];
  live_lines = 3 ∷ 5 ∷ [];
  starts = [];
}

select_loop_run :
    select_loop 8 2 0 two_blocks 0
    ≡ ok (1, record two_blocks { states = evacuating ∷ open_block ∷ [] })
unfolding select_loop
select_loop_run = refl

select_loop-IsSelected_example :
    (k : ℕ) × (m' : SpaceMeta) × (select_loop 8 2 0 two_blocks 0 ≡ ok (0 + k, m'))
    × IsSelected 8 0 2 two_blocks m'
    × Counted 8 two_blocks.live_lines two_blocks.states 0 2 k
select_loop-IsSelected_example =
    select_loop-IsSelected 8 2 0 two_blocks 0 (omega arith) (omega arith)
