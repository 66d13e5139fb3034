-- ===== src/Runtime/Heap/Holes.antt =====
-- For `find_hole` of crates/wsharp-runtime/src/heap.rs.
use wsharp.Prelude.{
  ℕ, zero, suc, ◌+◌, ◌-◌, ◌*◌, ◌≤◌, ◌<◌, ◌≡◌, ◌≢◌, refl, ◌∙◌, sym, inl, inr, Option, none, some,
  List, arith, ◌==◌, ==→≡, ==→≢, leb, leb→le, length, get_elem?, get_elem?-lt, Bool-cases,
}
use wsharp.Prelude.Run.{Run, ok}
use wsharp.Runtime.Heap.{
  SpaceMeta, line_bytes, lines_per_block, block_start, hole_end, find_round, find_loop, find_hole,
}

-- The lines `s`, …, `e - 1` of the block whose first line is `base` have no object.
abbrev pub AllFree : List ℕ → ℕ → ℕ → ℕ → Type 0
AllFree lines base s e = (i : ℕ) → s ≤ i → i < e → get_elem? lines (base + i) ≡ some 0

-- Each line of the block has a count.
abbrev pub HasLines : List ℕ → ℕ → Type 0
HasLines lines base = base + lines_per_block ≤ length lines

line-some :
    (lines : List ℕ) (base i : ℕ)
    → HasLines lines base
    → i < lines_per_block
    → (c : ℕ) × (get_elem? lines (base + i) ≡ some c)
line-some lines base i h k = get_elem?-lt lines (base + i) (omega (arith, h, k))

AllFree-step :
    (lines : List ℕ) (base s e : ℕ)
    → get_elem? lines (base + s) ≡ some 0
    → AllFree lines base (s + 1) e
    → AllFree lines base s e
AllFree-step lines base s e here later i h k = elim (Bool-cases (i == s)) [
  | inl same ↦ let at : i ≡ s = ==→≡ i s same in rw at here
  | inr other ↦ let apart : i ≢ s = ==→≢ i s other in later i (omega arith) k
]

-- A run of free lines to its end.
pub record HoleEnd (lines : List ℕ) (base line : ℕ) (run : Run ℕ) : Type 0 where
  pub end : ℕ
  pub runs : run ≡ ok end
  pub after : line ≤ end
  pub inside : end ≤ lines_per_block
  pub all_free : AllFree lines base line end
  pub stops : end < lines_per_block → get_elem? lines (base + end) ≢ some 0

hole_end_total :
    (lines : List ℕ) (base line n : ℕ)
    → HasLines lines base
    → line + n ≡ lines_per_block
    → HoleEnd lines base line (hole_end lines base line n)
unfolding hole_end
hole_end_total lines base line zero h e = record {
  end = line;
  runs = refl;
  after = omega arith;
  inside = omega arith;
  all_free = λ i a b. absurd (omega arith);
  stops = λ k. absurd (omega arith);
}
hole_end_total lines base line (suc n) h e =
    let (c, at) = line-some lines base line h (omega arith) in
    elim (Bool-cases (c == 0)) [
      | inl free_line ↦
          let later = hole_end_total lines base (line + 1) n h (omega arith) in
          let z : c ≡ 0 = ==→≡ c 0 free_line in
          rw (at, free_line)
            (record {
              end = later.end;
              runs = later.runs;
              after = omega (arith, later.after);
              inside = later.inside;
              all_free = AllFree-step lines base line later.end (rw z at at) later.all_free;
              stops = later.stops;
            })
      | inr taken ↦
          let nonzero : c ≢ 0 = ==→≢ c 0 taken in
          rw (at, taken)
            (record {
              end = line;
              runs = refl;
              after = omega arith;
              inside = omega arith;
              all_free = λ i a b. absurd (omega arith);
              stops = λ k z. nonzero (let both : some c ≡ some 0 = sym at ∙ z in ground arith);
            })
    ]

HoleEnd-moves :
    (lines : List ℕ) (base line : ℕ) (run : Run ℕ) (h : HoleEnd lines base line run)
    → get_elem? lines (base + line) ≡ some 0
    → line < lines_per_block
    → line < h.end
HoleEnd-moves lines base line run h at k = elim (Bool-cases (h.end == line)) [
  | inl same ↦
      let e : h.end ≡ line = ==→≡ h.end line same in
      absurd (h.stops (omega (arith, e, k)) (rw e at))
  | inr other ↦ let apart : h.end ≢ line = ==→≢ h.end line other in omega (arith, apart, h.after)
]

-- The lines `s`, …, `e - 1` are a hole at or after `line` with room for `want` bytes.
pub record IsHole (lines : List ℕ) (base line want s e : ℕ) : Type 0 where
  pub after : line ≤ s
  pub some_line : s < e
  pub inside : e ≤ lines_per_block
  pub room : want ≤ (e - s) * line_bytes
  pub all_free : AllFree lines base s e

-- A hole, in bytes, or none because there is none.
abbrev pub Found : SpaceMeta → ℕ → ℕ → ℕ → Option (ℕ × ℕ) → Type 0
Found m block line want none =
    (s e : ℕ) → ¬ IsHole m.line_objects (block * lines_per_block) line want s e
Found m block line want (some (from, to)) =
    (s e : ℕ) × (from ≡ block_start m block + s * line_bytes)
    × (to ≡ block_start m block + e * line_bytes)
    × IsHole m.line_objects (block * lines_per_block) line want s e

-- A run that finds what there is.
abbrev pub Finds : SpaceMeta → ℕ → ℕ → ℕ → Run (Option (ℕ × ℕ)) → Type 0
Finds m block line want run = (r : Option (ℕ × ℕ)) × (run ≡ ok r) × Found m block line want r

module _ (m : SpaceMeta) (block want : ℕ) where
  abbrev lines : List ℕ
  lines = m.line_objects

  abbrev base : ℕ
  base = block * lines_per_block

  -- A search that goes on from a later line.
  Found-later :
      (line next : ℕ)
      → line ≤ next
      → ((s e : ℕ) → s < next → ¬ IsHole lines base line want s e)
      → (r : Option (ℕ × ℕ)) → Found m block next want r
      → Found m block line want r
  Found-later line next h skip none found = λ s e hole. elim (Bool-cases (leb next s)) [
    | inl later ↦ found s e (record {
      after = ground arith;
      some_line = hole.some_line;
      inside = hole.inside;
      room = hole.room;
      all_free = hole.all_free;
    })
    | inr before ↦ skip s e (ground arith) hole
  ]
  Found-later line next h skip (some (from, to)) (s, e, a, b, hole) = (
    s,
    e,
    a,
    b,
    record {
      after = omega (arith, h, hole.after);
      some_line = hole.some_line;
      inside = hole.inside;
      room = hole.room;
      all_free = hole.all_free;
    },
  )

  -- No hole begins at a line that has an object.
  skip_taken :
      (line c : ℕ)
      → get_elem? lines (base + line) ≡ some c
      → c ≢ 0
      → (s e : ℕ) → s < line + 1
      → ¬ IsHole lines base line want s e
  skip_taken line c at nonzero s e h hole =
      let here : line < e = omega (arith, h, hole.after, hole.some_line) in
      let free_line = hole.all_free line (omega (arith, h)) here in
      nonzero (let both : some c ≡ some 0 = sym at ∙ free_line in ground arith)

  -- No hole begins inside a run of free lines that is too short.
  skip_short :
      (line : ℕ) (run : Run ℕ) (h : HoleEnd lines base line run)
      → (h.end - line) * line_bytes < want
      → (s e : ℕ) → s < h.end
      → ¬ IsHole lines base line want s e
  skip_short line run h short s e inside hole = elim (Bool-cases (leb e h.end)) [
    | inl within ↦
        absurd (omega (arith, short, hole.room, hole.after, hole.some_line, leb→le e h.end within))
    | inr beyond ↦
        let k : h.end < e = ground arith in
        h.stops (omega (arith, k, hole.inside)) (hole.all_free h.end (omega (arith, inside)) k)
  ]

  find_round_total :
      (rec : ℕ → Run (Option (ℕ × ℕ))) (line : ℕ)
      → HasLines lines base
      → ((next : ℕ) → line < next → next ≤ lines_per_block → Finds m block next want (rec next))
      → Finds m block line want (find_round m block want rec line)
  find_round_total rec line h go = elim (Bool-cases (leb lines_per_block line)) [
    | inl past ↦ rw past (
      none,
      refl,
      λ s e hole. absurd (
          omega (arith, hole.after, hole.some_line, hole.inside, leb→le lines_per_block line past)),
    )
    | inr here ↦
        let k : line < lines_per_block = ground arith in
        let (c, at) = line-some lines base line h k in
        elim (Bool-cases (c == 0)) [
          | inl free_line ↦
              let run = hole_end_total lines base line (lines_per_block - line) h (omega arith) in
              let zero_count : c ≡ 0 = ==→≡ c 0 free_line in
              let moves = HoleEnd-moves lines base line _ run (rw zero_count at at) k in
              elim (Bool-cases (leb want ((run.end - line) * line_bytes))) [
                | inl fits ↦
                    let hole : IsHole lines base line want line run.end = record {
                      after = omega arith;
                      some_line = moves;
                      inside = run.inside;
                      room = leb→le want ((run.end - line) * line_bytes) fits;
                      all_free = run.all_free;
                    } in
                    rw (here, at, free_line, run.runs, fits)
                      (some _, refl, (line, run.end, refl, refl, hole))
                | inr short ↦
                    let (r, runs, found) = go run.end moves run.inside in
                    let skip = skip_short line _ run (ground arith) in
                    rw (here, at, free_line, run.runs, short)
                      (r, runs, Found-later line run.end run.after skip r found)
              ]
          | inr taken ↦
              let (r, runs, found) = go (line + 1) (omega arith) (omega (arith, k)) in
              let skip = skip_taken line c at (==→≢ c 0 taken) in
              rw (here, at, taken) (r, runs, Found-later line (line + 1) (omega arith) skip r found)
        ]
  ]

  find_loop_total :
      (f line : ℕ)
      → 1 ≤ f
      → lines_per_block < line + f
      → HasLines lines base
      → Finds m block line want (find_loop m block want f line)
  unfolding find_loop
  find_loop_total zero line some_fuel k h = absurd (omega arith)
  find_loop_total (suc f) line some_fuel k h =
      find_round_total (find_loop m block want f) line h
        (λ next n b. find_loop_total f next (omega (arith, k, n, b)) (omega (arith, k, n)) h)

  -- For a block whose lines have counts, `find_hole` returns, with no index out of range: a run of lines of the
  -- block at or after `from_line`, as its first byte and the byte after its last, all without an object and with room
  -- for `want` bytes, or `None`, and then there is no such run.
  pub find_hole-Found :
      (from_line : ℕ)
      → HasLines m.line_objects (block * lines_per_block)
      → (r : Option (ℕ × ℕ)) × (find_hole m block from_line want ≡ ok r)
        × Found m block from_line want r
  unfolding find_hole
  find_hole-Found from_line h =
      find_loop_total (suc lines_per_block) from_line (omega arith) (omega arith) h
