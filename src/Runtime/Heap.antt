-- ===== src/Runtime/Heap.antt =====
-- The side metadata of a space of the heap, crates/wsharp-runtime/src/heap.rs. An index out of range is a
-- panic. An address that is asked about is at the base of the space or after it. The counts of a space
-- are atomics: an operation here is its effect when no other thread is at the same lines.
pub mod Holes
pub mod Lines
pub mod Apart
pub mod Fresh
pub mod Closed
pub mod Placed
pub mod Evacuation
mod Tests
use wsharp.Prelude.{
  ℕ, zero, suc, ◌+◌, ◌-◌, ◌*◌, ◌/◌, ◌%◌, ◌^◌, Bool, true, false, not, Option, none, some, List, [],
  ◌∷◌, ◌==◌, ltb, leb, if◌then◌else◌, length, get_elem?, set, replicate,
}
use wsharp.Prelude.Run.{Run, ok, panic, out_of_fuel, then_run}

abbrev pub block_bytes : ℕ
block_bytes = 2 ^ 15

abbrev pub line_bytes : ℕ
line_bytes = 2 ^ 8

abbrev pub lines_per_block : ℕ
lines_per_block = 128

-- A bit for each 16 bytes, in words of 64.
abbrev pub bitmap_words_per_block : ℕ
bitmap_words_per_block = 32

abbrev pub space_bytes : ℕ
space_bytes = 2048 * 2 ^ 15

pub data BlockState : Type 0 where
  free open_block full recyclable evacuating : BlockState

pub record SpaceMeta : Type 0 where
  pub base : ℕ
  pub states : List BlockState
  pub line_objects : List ℕ
  pub live_lines : List ℕ
  pub starts : List ℕ

abbrev pub space_blocks : ℕ
space_blocks = 2048

-- `Space::new`, on the address that the allocator handed back: the base is the first multiple of a block's size from
-- there on.
unfoldable pub space_new : ℕ → SpaceMeta
space_new raw = record {
  base = (raw + block_bytes - 1) / block_bytes * block_bytes;
  states = replicate space_blocks free;
  line_objects = replicate (space_blocks * lines_per_block) 0;
  live_lines = replicate space_blocks 0;
  starts = replicate (space_blocks * bitmap_words_per_block) 0;
}

-- `wrapping_sub` of two `usize`s.
unfoldable pub contains_addr : SpaceMeta → ℕ → Bool
contains_addr m addr = ltb ((addr + 2 ^ 64 - m.base) % 2 ^ 64) space_bytes

abbrev pub block_index : SpaceMeta → ℕ → ℕ
block_index m addr = (addr - m.base) / block_bytes

abbrev pub line_index : SpaceMeta → ℕ → ℕ
line_index m addr = (addr - m.base) / line_bytes

abbrev pub block_start : SpaceMeta → ℕ → ℕ
block_start m block = m.base + block * block_bytes

-- An index into a slice.
abbrev pub index {ℓ} : {A : Type ℓ} → Option A → Run A
index none = panic
index (some a) = ok a

-- The first line of the range `lines_of`, and how many it has.
abbrev pub lines_of : SpaceMeta → ℕ → ℕ → ℕ × ℕ
lines_of m addr size = (line_index m addr, suc (line_index m (addr + size - 1)) - line_index m addr)

-- The `for` loop of `occupy`, over `n` lines: the counts, and how many were 0.
unfoldable pub occupy_loop : List ℕ → ℕ → ℕ → ℕ → Run (List ℕ × ℕ)
occupy_loop lines line zero newly = ok (lines, newly)
occupy_loop lines line (suc n) newly = then_run (index (get_elem? lines line)) (λ before.
    occupy_loop (set lines line ((before + 1) % 2 ^ 8)) (line + 1) n
      (if before == 0 then (newly + 1) % 2 ^ 16 else newly))

-- The write of the block's count of lines, by `f`.
abbrev pub update_live : SpaceMeta → ℕ → (ℕ → ℕ) → List ℕ → Run SpaceMeta
update_live m block f lines = then_run (index (get_elem? m.live_lines block)) (λ before.
    ok (record m { line_objects = lines; live_lines = set m.live_lines block (f before) }))

unfoldable pub occupy : SpaceMeta → ℕ → ℕ → Run SpaceMeta
unfolding occupy_loop
occupy m addr size =
    let (first, n) = lines_of m addr size in
    then_run (occupy_loop m.line_objects first n 0) (λ (lines, newly).
      if newly == 0
      then ok (record m { line_objects = lines })
      else update_live m (block_index m addr) (λ before. (before + newly) % 2 ^ 16) lines)

-- The loop of `vacate`: `fetch_sub` wraps.
unfoldable pub vacate_loop : List ℕ → ℕ → ℕ → ℕ → Run (List ℕ × ℕ)
vacate_loop lines line zero freed = ok (lines, freed)
vacate_loop lines line (suc n) freed = then_run (index (get_elem? lines line)) (λ before.
    vacate_loop (set lines line ((before + 2 ^ 8 - 1) % 2 ^ 8)) (line + 1) n
      (if before == 1 then (freed + 1) % 2 ^ 16 else freed))

unfoldable pub vacate : SpaceMeta → ℕ → ℕ → Run (ℕ × SpaceMeta)
unfolding vacate_loop
vacate m addr size =
    let (first, n) = lines_of m addr size in
    then_run (vacate_loop m.line_objects first n 0) (λ (lines, freed).
      if freed == 0
      then ok (freed, record m { line_objects = lines })
      else then_run
          (update_live m (block_index m addr) (λ before. (before + 2 ^ 16 - freed) % 2 ^ 16) lines)
          (λ m'. ok (freed, m')))

-- The inner `while` of `find_hole`: `n` lines are left from `line` on.
unfoldable pub hole_end : List ℕ → ℕ → ℕ → ℕ → Run ℕ
hole_end lines base line zero = ok line
hole_end lines base line (suc n) =
    then_run (index (get_elem? lines (base + line)))
      (λ count. if count == 0 then hole_end lines base (line + 1) n else ok line)

-- One round of the outer `while`.
abbrev pub find_round : SpaceMeta → ℕ → ℕ → (ℕ → Run (Option (ℕ × ℕ))) → ℕ → Run (Option (ℕ × ℕ))
find_round m block want rec line =
    let base = block * lines_per_block in
    if leb lines_per_block line
    then ok none
    else then_run (index (get_elem? m.line_objects (base + line))) (λ count.
      if count == 0
      then then_run (hole_end m.line_objects base line (lines_per_block - line)) (λ end.
        if leb want ((end - line) * line_bytes)
        then ok
            (some (block_start m block + line * line_bytes, block_start m block + end * line_bytes))
        else rec end)
      else rec (line + 1))

unfoldable pub find_loop : SpaceMeta → ℕ → ℕ → ℕ → ℕ → Run (Option (ℕ × ℕ))
unfolding hole_end
find_loop m block want zero line = out_of_fuel
find_loop m block want (suc f) line = find_round m block want (find_loop m block want f) line

-- A round passes a line at least.
unfoldable pub find_hole : SpaceMeta → ℕ → ℕ → ℕ → Run (Option (ℕ × ℕ))
unfolding find_loop
find_hole m block from_line want = find_loop m block want (suc lines_per_block) from_line

-- The loop of `clear_block_starts`, over `n` words. The slice that it goes over panics past the end.
unfoldable pub clear_words : List ℕ → ℕ → ℕ → List ℕ
clear_words starts word zero = starts
clear_words starts word (suc n) = clear_words (set starts word 0) (word + 1) n

unfoldable pub clear_block_starts : SpaceMeta → ℕ → Run SpaceMeta
clear_block_starts m block =
    let first = block * bitmap_words_per_block in
    if leb (first + bitmap_words_per_block) (length m.starts)
    then ok (record m { starts = clear_words m.starts first bitmap_words_per_block })
    else panic

abbrev pub set_state : SpaceMeta → ℕ → BlockState → SpaceMeta
set_state m block state = record m { states = set m.states block state }

abbrev pub is_open : BlockState → Bool
is_open open_block = true
is_open _ = false

-- The state of a block that has live lines, by whether it has a hole.
abbrev pub by_hole : Option (ℕ × ℕ) → BlockState
by_hole (some hole) = recyclable
by_hole none = full

-- `Heap::close_block`; the smallest object takes 16 bytes.
unfoldable pub close_block : SpaceMeta → ℕ → Run SpaceMeta
close_block m block = then_run (index (get_elem? m.states block)) (λ state.
    if not (is_open state)
    then ok m
    else then_run (index (get_elem? m.live_lines block)) (λ live.
      if live == 0
      then then_run (clear_block_starts m block) (λ m'. ok (set_state m' block free))
      else then_run (find_hole m block 0 16) (λ hole. ok (set_state m block (by_hole hole)))))
