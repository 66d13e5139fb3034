-- ===== src/Runtime/Heap/Closed.antt =====
-- For `close_block` of crates/wsharp-runtime/src/heap.rs.
use wsharp.Prelude.{
  ℕ, zero, suc, ◌+◌, ◌*◌, ◌≤◌, ◌<◌, ◌≡◌, refl, sym, ◌∙◌, ap, true, false, inl, inr, Option, none,
  some, List, [], ◌∷◌, arith, ◌==◌, ==→≡, leb, length, get_elem?, set, get_elem?-lt,
  get_elem?-set_self, lt-length, Bool-cases,
}
use wsharp.Prelude.Run.{Run, ok, then_run}
use wsharp.Runtime.Heap.{
  BlockState, free, open_block, full, recyclable, SpaceMeta, find_hole, clear_words,
  clear_block_starts, set_state, by_hole, close_block, lines_per_block, bitmap_words_per_block,
}
use wsharp.Runtime.Heap.Holes.{IsHole, Found, find_hole-Found}
use wsharp.Runtime.Heap.Lines.{busy, busy_at, inside_lem}
use wsharp.Runtime.Heap.Apart.{touching-some}
use wsharp.Runtime.Heap.Lines.Objects.{
  Object, block_of, first_line, line_count, AllObjects, touches, touching, Exact, object-InBlock,
}

-- No object is in the block.
abbrev pub NoneIn : ℕ → ℕ → List Object → Type 0
NoneIn base block [] = Unit
NoneIn base block (o ∷ os) = ¬ (block_of base o ≡ block) × NoneIn base block os

-- What the state of a block that no allocator holds says of it.
abbrev pub Says : ℕ → List Object → SpaceMeta → ℕ → BlockState → Type 0
Says base objs m block free = NoneIn base block objs
Says base objs m block recyclable =
    (s e : ℕ) × IsHole m.line_objects (block * lines_per_block) 0 16 s e
Says base objs m block full = (s e : ℕ) → ¬ IsHole m.line_objects (block * lines_per_block) 0 16 s e
Says base objs m block _ = true ≡ false

-- A line with an object is counted in its block.
busy-zero :
    (lines : List ℕ) (from n i c : ℕ)
    → busy lines from n ≡ 0
    → from ≤ i
    → i < from + n
    → get_elem? lines i ≡ some c
    → c ≡ 0
unfolding busy
busy-zero lines from zero i c z h k e = absurd (omega arith)
busy-zero lines from (suc n) i c z h k e = elim (Bool-cases (i == from)) [
  | inl same ↦
      let at : i ≡ from = ==→≡ i from same in
      let here : get_elem? lines from ≡ some c = ap (get_elem? lines) (sym at) ∙ e in
      let none_at : busy_at (get_elem? lines from) ≡ 0 = omega (arith, z) in
      let none_here : busy_at (some c) ≡ 0 = rw here at none_at in ground arith
  | inr other ↦
      busy-zero lines (from + 1) n i c (omega (arith, z)) (ground arith) (omega (arith, k)) e
]

-- No object touches a line of the block: none is in it.
free-NoneIn :
    (base blocks block : ℕ) (objs : List Object)
    → AllObjects base blocks objs
    → ((l : ℕ)
        → block * lines_per_block ≤ l
        → l < block * lines_per_block + lines_per_block
        → touching base l objs ≡ 0)
    → NoneIn base block objs
free-NoneIn base blocks block [] all free_lines = tt
free-NoneIn base blocks block (o ∷ os) (h, all) free_lines =
    let parts =
      λ (l : ℕ) (a : block * lines_per_block ≤ l)
          (b : l < block * lines_per_block + lines_per_block).
        touching-some base l (o ∷ os) (free_lines l a b) o os refl in
    let at = object-InBlock base blocks o h in
    (
      λ same.
          let low : block * lines_per_block ≤ first_line base o = omega (arith, at.starts, same) in
          let high : first_line base o < block * lines_per_block + lines_per_block =
            omega (arith, at.ends, at.some_line, same) in
          let hit : touches base (first_line base o) o ≡ true =
            inside_lem (first_line base o) (line_count base o) (first_line base o) (omega arith)
              (omega (arith, at.some_line)) in
          let miss = (parts (first_line base o) low high).0 in cc,
      free-NoneIn base blocks block os all (λ l a b. (parts l a b).1),
    )

-- A block with no live line has no object.
dead-NoneIn :
    (base blocks : ℕ) (objs : List Object) (m : SpaceMeta) (block : ℕ)
    → Exact base blocks objs m
    → block < blocks
    → get_elem? m.live_lines block ≡ some 0
    → NoneIn base block objs
dead-NoneIn base blocks objs m block x h e =
    let z = sym (x.lives block 0 e) in
    free-NoneIn base blocks block objs x.objects (λ l a b.
      let (c, at) = get_elem?-lt m.line_objects l (omega (arith, x.all_lines, h, b)) in
      let none_on =
        busy-zero m.line_objects (block * lines_per_block) lines_per_block l c z a b at in
      sym (x.counts l c at) ∙ none_on)

-- Neither the states nor the bitmap is counted.
Exact-state :
    (base blocks : ℕ) (objs : List Object) (m : SpaceMeta) (states : List BlockState)
    (starts : List ℕ)
    → Exact base blocks objs m
    → Exact base blocks objs (record m { states = states; starts = starts })
Exact-state base blocks objs m states starts x = record {
  same_base = x.same_base;
  all_blocks = x.all_blocks;
  all_lines = x.all_lines;
  objects = x.objects;
  bounded = x.bounded;
  counts = x.counts;
  lives = x.lives;
}

Found-Says :
    (base : ℕ) (objs : List Object) (m : SpaceMeta) (block : ℕ) (hole : Option (ℕ × ℕ))
    → Found m block 0 16 hole
    → Says base objs m block (by_hole hole)
Found-Says base objs m block none found = found
Found-Says base objs m block (some (from, to)) (s, e, a, b, hole) = (s, e, hole)

clear_block_starts_lem :
    (m : SpaceMeta) (block : ℕ)
    → leb (block * bitmap_words_per_block + bitmap_words_per_block) (length m.starts) ≡ true
    → clear_block_starts m block
      ≡ ok (record m {
        starts = clear_words m.starts (block * bitmap_words_per_block) bitmap_words_per_block;
      })
unfolding clear_block_starts
clear_block_starts_lem m block h = rw h refl

close_block-alive :
    (m : SpaceMeta) (block n : ℕ)
    → get_elem? m.states block ≡ some open_block
    → get_elem? m.live_lines block ≡ some n
    → (n == 0) ≡ false
    → close_block m block
      ≡ then_run (find_hole m block 0 16) (λ hole. ok (set_state m block (by_hole hole)))
unfolding close_block
close_block-alive m block n a b c = rw (a, b, c) refl

-- In a space whose metadata is exact for its objects, `close_block` returns on an open block, and the state it gives
-- the block is true: `Free` and no object is in the block, `Recyclable` and there is a hole for an object of 16
-- bytes, or `Full` and there is none. The counts stay exact.
pub close_block-Says :
    (base blocks : ℕ) (objs : List Object) (m : SpaceMeta) (block : ℕ)
    → Exact base blocks objs m
    → length m.starts ≡ blocks * bitmap_words_per_block
    → block < blocks
    → get_elem? m.states block ≡ some open_block
    → (m' : SpaceMeta) × (state : BlockState) × (close_block m block ≡ ok m')
      × (get_elem? m'.states block ≡ some state)
      × Exact base blocks objs m'
      × Says base objs m block state
unfolding close_block
close_block-Says base blocks objs m block x words h is_open_now =
    let here = lt-length m.states block open_block is_open_now in
    let (n, live) = get_elem?-lt m.live_lines block (omega (arith, h, x.all_blocks)) in
    elim (Bool-cases (n == 0)) [
      | inl dead ↦
          let zero_live : n ≡ 0 = ==→≡ n 0 dead in
          let room : leb (block * bitmap_words_per_block + bitmap_words_per_block) (length m.starts)
              ≡ true =
            ground arith in
          (
            record m {
              states = set m.states block free;
              starts = clear_words m.starts (block * bitmap_words_per_block) bitmap_words_per_block;
            },
            free,
            rw (is_open_now, live, dead, clear_block_starts_lem m block room) refl,
            get_elem?-set_self m.states block free here,
            Exact-state base blocks objs m _ _ x,
            dead-NoneIn base blocks objs m block x h (rw zero_live at live),
          )
      | inr alive ↦
          let (hole, runs, found) = find_hole-Found m block 16 0 (omega (arith, h, x.all_lines)) in
          (
            set_state m block (by_hole hole),
            by_hole hole,
            close_block-alive m block n is_open_now live alive
                ∙ ap
                    (λ (r : Run (Option (ℕ × ℕ))).
                      then_run r (λ hole. ok (set_state m block (by_hole hole))))
                    runs,
            get_elem?-set_self m.states block (by_hole hole) here,
            Exact-state base blocks objs m _ m.starts x,
            Found-Says base objs m block hole found,
          )
    ]
