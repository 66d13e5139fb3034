-- ===== src/Runtime/Heap/Lines.antt =====
-- For `occupy` and `vacate` of crates/wsharp-runtime/src/heap.rs: lists of counts.
pub mod Loops
pub mod Objects
pub mod Calls
pub mod Crowd
use wsharp.Prelude.{
  ℕ, zero, suc, ◌+◌, ◌-◌, ◌%◌, ◌^◌, ◌≤◌, ◌<◌, ◌≡◌, ◌≢◌, ◌⊎◌, refl, sym, ◌∙◌, ap, Bool, true, false,
  ◌&&◌, inl, inr, Option, none, some, List, [], ◌∷◌, arith, ◌==◌, ==→≡, ==→≢, ltb, leb,
  if◌then◌else◌, length, get_elem?, set, length-set, get_elem?-lt, get_elem?-set_self,
  get_elem?-set_ne, lt-length, Bool-cases,
}
use wsharp.Prelude.Run.{Run, ok, then_run}
use wsharp.Runtime.Heap.{lines_per_block, index, occupy_loop, vacate_loop}

abbrev pub busy_at : Option ℕ → ℕ
busy_at none = 0
busy_at (some c) = if c == 0 then 0 else 1

-- How many of `n` lines have an object.
unfoldable pub busy : List ℕ → ℕ → ℕ → ℕ
busy lines from zero = 0
busy lines from (suc n) = busy_at (get_elem? lines from) + busy lines (from + 1) n

busy_at_le : (o : Option ℕ) → busy_at o ≤ 1
busy_at_le none = omega arith
busy_at_le (some c) = ground arith

pub busy_le : (lines : List ℕ) (from n : ℕ) → busy lines from n ≤ n
unfolding busy
busy_le lines from zero = omega arith
busy_le lines from (suc n) =
    let later = busy_le lines (from + 1) n in
    let here = busy_at_le (get_elem? lines from) in omega (arith, here, later)

before_or_after :
    (i from n : ℕ) → (i < from) ⊎ (from + suc n ≤ i) → (i < from + 1) ⊎ (from + 1 + n ≤ i)
before_or_after i from n (inl h) = inl (omega (arith, h))
before_or_after i from n (inr h) = inr (omega (arith, h))

busy-set_out :
    (lines : List ℕ) (i v from n : ℕ)
    → (i < from) ⊎ (from + n ≤ i)
    → busy (set lines i v) from n ≡ busy lines from n
unfolding busy
busy-set_out lines i v from zero h = refl
busy-set_out lines i v from (suc n) h =
    let apart : i ≢ from = omega (arith, h) in
    let later = busy-set_out lines i v (from + 1) n (before_or_after i from n h) in
    rw (get_elem?-set_ne lines v apart, later) refl

busy-set_in :
    (lines : List ℕ) (i v c from n : ℕ)
    → get_elem? lines i ≡ some c
    → from ≤ i
    → i < from + n
    → busy (set lines i v) from n + busy_at (some c) ≡ busy lines from n + busy_at (some v)
unfolding busy
busy-set_in lines i v c from zero at h k = absurd (omega arith)
busy-set_in lines i v c from (suc n) at h k = elim (Bool-cases (i == from)) [
  | inl same ↦
      let e : i ≡ from = ==→≡ i from same in
      let later = busy-set_out lines i v (from + 1) n (inl (omega (arith, e))) in
      let new = get_elem?-set_self lines i v (lt-length lines i c at) in
      let here : get_elem? (set lines i v) from ≡ some v =
        ap (get_elem? (set lines i v)) (sym e) ∙ new in
      let old : get_elem? lines from ≡ some c = ap (get_elem? lines) (sym e) ∙ at in
      rw (here, old, later) (omega arith)
  | inr other ↦
      let apart : i ≢ from = ==→≢ i from other in
      let later =
        busy-set_in lines i v c (from + 1) n at (omega (arith, apart, h)) (omega (arith, k)) in
      rw (get_elem?-set_ne lines v apart) (omega (arith, later))
]

abbrev pub inside : ℕ → ℕ → ℕ → Bool
inside line n i = leb line i && ltb i (line + n)

-- The counts of the `n` lines from `line` on have changed by `step`, no others.
pub record Changed (step : ℕ → ℕ) (lines : List ℕ) (line n up down : ℕ) (lines' : List ℕ)
    : Type 0 where
  pub width : length lines' ≡ length lines
  pub got :
      (i c : ℕ)
      → get_elem? lines i ≡ some c
      → get_elem? lines' i ≡ some (if inside line n i then step c else c)
  pub near :
      (from : ℕ)
      → from ≤ line
      → line + n ≤ from + lines_per_block
      → busy lines' from lines_per_block + up ≡ busy lines from lines_per_block + down
  pub far :
      (from : ℕ)
      → (line + n ≤ from) ⊎ (from + lines_per_block ≤ line)
      → busy lines' from lines_per_block ≡ busy lines from lines_per_block

pub inside_lem : (line n i : ℕ) → line ≤ i → i < line + n → inside line n i ≡ true
inside_lem line n i h k = ground arith

inside_before : (line n i : ℕ) → i < line + 1 → inside (line + 1) n i ≡ false
inside_before line n i h = ground arith

inside_first : (line n i : ℕ) → i ≡ line → inside line (suc n) i ≡ true
inside_first line n i h = ground arith

inside_rest : (line n i : ℕ) → i ≢ line → inside line (suc n) i ≡ inside (line + 1) n i
inside_rest line n i h = ground arith

after_first :
    (from line n : ℕ)
    → (line + suc n ≤ from) ⊎ (from + lines_per_block ≤ line)
    → (line + 1 + n ≤ from) ⊎ (from + lines_per_block ≤ line + 1)
after_first from line n (inl h) = inl (omega (arith, h))
after_first from line n (inr h) = inr (omega (arith, h))

out_first :
    (from line n : ℕ)
    → (line + suc n ≤ from) ⊎ (from + lines_per_block ≤ line)
    → (line < from) ⊎ (from + lines_per_block ≤ line)
out_first from line n (inl h) = inl (omega (arith, h))
out_first from line n (inr h) = inr h

module _ (step : ℕ → ℕ) where
  pub Changed-none : (lines : List ℕ) (line k : ℕ) → Changed step lines line 0 k k lines
  Changed-none lines line k = record {
    width = refl;
    got = λ i c e. let out : inside line 0 i ≡ false = ground arith in rw out e;
    near = λ from a b. refl;
    far = λ from h. refl;
  }

  -- The first line, then the others.
  pub Changed-step :
      (lines lines' : List ℕ) (line n c up up' down down' : ℕ)
      → get_elem? lines line ≡ some c
      → busy_at (some (step c)) + down' + up ≡ busy_at (some c) + up' + down
      → Changed step (set lines line (step c)) (line + 1) n up' down' lines'
      → Changed step lines line (suc n) up down lines'
  Changed-step lines lines' line n c up up' down down' at change later = record {
    width = later.width ∙ length-set lines line (step c);
    got = λ i d e. elim (Bool-cases (i == line)) [
      | inl same ↦
          let here : i ≡ line = ==→≡ i line same in
          let new =
            ap (get_elem? (set lines line (step c))) here
            ∙ get_elem?-set_self lines line (step c) (lt-length lines line c at) in
          let old : some d ≡ some c = sym e ∙ ap (get_elem? lines) here ∙ at in
          let value : d ≡ c = ground arith in
          let passed : inside (line + 1) n i ≡ false =
            inside_before line n i (omega (arith, here)) in
          let reached : inside line (suc n) i ≡ true = inside_first line n i here in
          rw (reached, value) (rw passed at (later.got i (step c) new))
      | inr other ↦
          let apart : i ≢ line = ==→≢ i line other in
          let back : line ≢ i = λ h. apart (sym h) in
          rw (inside_rest line n i apart) (later.got i d (get_elem?-set_ne lines (step c) back ∙ e))
    ];
    near = λ from a b.
        let first =
          busy-set_in lines line (step c) c from lines_per_block at a (omega (arith, b)) in
        let others = later.near from (omega (arith, a)) (omega (arith, b)) in
        omega (arith, first, others, change);
    far = λ from h.
        later.far from (after_first from line n h)
        ∙ busy-set_out lines line (step c) from lines_per_block (out_first from line n h);
  }
