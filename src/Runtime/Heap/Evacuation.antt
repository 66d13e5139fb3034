-- ===== src/Runtime/Heap/Evacuation.antt =====
-- The blocks of a space that a trace empties: the loops of `select_evacuation` and `revert_evacuation` of
-- crates/wsharp-runtime/src/heap.rs over the blocks of one space.
pub mod Chosen
pub mod Sparse
use wsharp.Prelude.{
  ℕ, zero, suc, ◌+◌, Bool, true, false, ◌&&◌, ◌==◌, ltb, leb, if◌then◌else◌, get_elem?,
}
use wsharp.Prelude.Run.{Run, ok, then_run}
use wsharp.Runtime.Heap.{
  BlockState, free, open_block, full, recyclable, evacuating, SpaceMeta, index, set_state,
  space_blocks,
}

abbrev pub is_usable : BlockState → Bool
is_usable full = true
is_usable recyclable = true
is_usable _ = false

abbrev pub is_evacuating_state : BlockState → Bool
is_evacuating_state evacuating = true
is_evacuating_state _ = false

-- `sparse && usable`.
abbrev pub is_chosen : ℕ → ℕ → BlockState → Bool
is_chosen max_live_lines live state = (ltb 0 live && leb live max_live_lines) && is_usable state

-- `n` blocks are left, from `b` on.
unfoldable pub select_loop : ℕ → ℕ → ℕ → SpaceMeta → ℕ → Run (ℕ × SpaceMeta)
select_loop max_live_lines zero b m chosen = ok (chosen, m)
select_loop max_live_lines (suc n) b m chosen = then_run (index (get_elem? m.live_lines b)) (λ live.
    then_run (index (get_elem? m.states b)) (λ state.
      if is_chosen max_live_lines live state
      then select_loop max_live_lines n (b + 1) (set_state m b evacuating) (chosen + 1)
      else select_loop max_live_lines n (b + 1) m chosen))

unfoldable pub select_evacuation : ℕ → SpaceMeta → ℕ → Run (ℕ × SpaceMeta)
select_evacuation max_live_lines m chosen = select_loop max_live_lines space_blocks 0 m chosen

unfoldable pub revert_loop : ℕ → ℕ → SpaceMeta → Run SpaceMeta
revert_loop zero b m = ok m
revert_loop (suc n) b m = then_run (index (get_elem? m.states b)) (λ state.
    if is_evacuating_state state
    then revert_loop n (b + 1) (set_state m b full)
    else revert_loop n (b + 1) m)

unfoldable pub revert_evacuation : SpaceMeta → Run SpaceMeta
revert_evacuation m = revert_loop space_blocks 0 m
