-- ===== src/Runtime/Heap/Lines/Loops.antt =====
-- For the loops of `occupy` and `vacate` of crates/wsharp-runtime/src/heap.rs.
use wsharp.Prelude.{
  ℕ, zero, suc, ◌+◌, ◌-◌, ◌%◌, ◌^◌, ◌≤◌, ◌<◌, ◌≡◌, ◌≢◌, refl, sym, ◌∙◌, inl, inr, some, List, arith,
  ◌==◌, if◌then◌else◌, length, get_elem?, set, length-set, get_elem?-lt, get_elem?-set_ne,
  Bool-cases,
}
use wsharp.Prelude.Run.{ok}
use wsharp.Runtime.Heap.{occupy_loop, vacate_loop}
use wsharp.Runtime.Heap.Lines.{busy_at, Changed, Changed-none, Changed-step}

-- The counts of the `n` lines from `line` on are in a range.
abbrev pub AllCounts : (ℕ → Type 0) → List ℕ → ℕ → ℕ → Type 0
AllCounts P lines line n = (i c : ℕ) → line ≤ i → i < line + n → get_elem? lines i ≡ some c → P c

AllCounts-set :
    (P : ℕ → Type 0) (lines : List ℕ) (line n v : ℕ)
    → AllCounts P lines line (suc n)
    → AllCounts P (set lines line v) (line + 1) n
AllCounts-set P lines line n v all i c h k e =
    let apart : line ≢ i = omega (arith, h) in
    all i c (omega (arith, h)) (omega (arith, k)) (sym (get_elem?-set_ne lines v apart) ∙ e)

-- One round of each loop, with no wrap.
occupy_loop-suc :
    (n line newly c : ℕ) (lines : List ℕ)
    → get_elem? lines line ≡ some c
    → c < 255
    → newly + 1 < 2 ^ 16
    → occupy_loop lines line (suc n) newly
      ≡ occupy_loop (set lines line (suc c)) (line + 1) n (if c == 0 then newly + 1 else newly)
unfolding occupy_loop
occupy_loop-suc n line newly c lines at h k =
    let write : (c + 1) % 2 ^ 8 ≡ suc c = omega (arith, h) in
    let sum : (newly + 1) % 2 ^ 16 ≡ newly + 1 = omega (arith, k) in rw (at, write, sum) refl

vacate_loop-suc :
    (n line freed c : ℕ) (lines : List ℕ)
    → get_elem? lines line ≡ some c
    → 1 ≤ c
    → c < 256
    → freed + 1 < 2 ^ 16
    → vacate_loop lines line (suc n) freed
      ≡ vacate_loop (set lines line (c - 1)) (line + 1) n (if c == 1 then freed + 1 else freed)
unfolding vacate_loop
vacate_loop-suc n line freed c lines at g h k =
    let write : (c + 2 ^ 8 - 1) % 2 ^ 8 ≡ c - 1 = omega (arith, g, h) in
    let sum : (freed + 1) % 2 ^ 16 ≡ freed + 1 = omega (arith, k) in rw (at, write, sum) refl

pub occupy_loop_total :
    (n line newly : ℕ) (lines : List ℕ)
    → line + n ≤ length lines
    → AllCounts (λ c. c < 255) lines line n
    → newly + n < 2 ^ 16
    → (lines' : List ℕ) × (k : ℕ) × (occupy_loop lines line n newly ≡ ok (lines', k))
      × Changed suc lines line n newly k lines'
unfolding occupy_loop
occupy_loop_total zero line newly lines h all small =
    (lines, newly, refl, Changed-none suc lines line newly)
occupy_loop_total (suc n) line newly lines h all small =
    let (c, at) = get_elem?-lt lines line (omega (arith, h)) in
    let c_small : c < 255 = all line c (omega arith) (omega arith) at in
    let step = occupy_loop-suc n line newly c lines at c_small (omega (arith, small)) in
    let later = AllCounts-set (λ d. d < 255) lines line n (suc c) all in
    let width : line + 1 + n ≤ length (set lines line (suc c)) =
      omega (arith, h, length-set lines line (suc c)) in
    elim (Bool-cases (c == 0)) [
      | inl first ↦
          let (lines', k, runs, changed) =
            occupy_loop_total n (line + 1) (newly + 1) (set lines line (suc c)) width later
              (omega (arith, small)) in
          let change : busy_at (some (suc c)) + k + newly ≡ busy_at (some c) + (newly + 1) + k =
            ground arith in
          (
            lines',
            k,
            rw first at step ∙ runs,
            Changed-step suc lines lines' line n c newly (newly + 1) k k at change changed,
          )
      | inr more ↦
          let (lines', k, runs, changed) =
            occupy_loop_total n (line + 1) newly (set lines line (suc c)) width later
              (omega (arith, small)) in
          let change : busy_at (some (suc c)) + k + newly ≡ busy_at (some c) + newly + k =
            ground arith in
          (
            lines',
            k,
            rw more at step ∙ runs,
            Changed-step suc lines lines' line n c newly newly k k at change changed,
          )
    ]

abbrev pub pred : ℕ → ℕ
pred c = c - 1

pub vacate_loop_total :
    (n line freed : ℕ) (lines : List ℕ)
    → line + n ≤ length lines
    → AllCounts (λ c. (1 ≤ c) × (c < 256)) lines line n
    → freed + n < 2 ^ 16
    → (lines' : List ℕ) × (k : ℕ) × (vacate_loop lines line n freed ≡ ok (lines', k))
      × Changed pred lines line n k freed lines'
unfolding vacate_loop
vacate_loop_total zero line freed lines h all small =
    (lines, freed, refl, Changed-none pred lines line freed)
vacate_loop_total (suc n) line freed lines h all small =
    let (c, at) = get_elem?-lt lines line (omega (arith, h)) in
    let (some_object, c_small) = all line c (omega arith) (omega arith) at in
    let step = vacate_loop-suc n line freed c lines at some_object c_small (omega (arith, small)) in
    let later = AllCounts-set (λ d. (1 ≤ d) × (d < 256)) lines line n (c - 1) all in
    let width : line + 1 + n ≤ length (set lines line (c - 1)) =
      omega (arith, h, length-set lines line (c - 1)) in
    elim (Bool-cases (c == 1)) [
      | inl last ↦
          let (lines', k, runs, changed) =
            vacate_loop_total n (line + 1) (freed + 1) (set lines line (c - 1)) width later
              (omega (arith, small)) in
          let change : busy_at (some (c - 1)) + (freed + 1) + k ≡ busy_at (some c) + k + freed =
            ground arith in
          (
            lines',
            k,
            rw last at step ∙ runs,
            Changed-step pred lines lines' line n c k k freed (freed + 1) at change changed,
          )
      | inr more ↦
          let (lines', k, runs, changed) =
            vacate_loop_total n (line + 1) freed (set lines line (c - 1)) width later
              (omega (arith, small)) in
          let change : busy_at (some (c - 1)) + freed + k ≡ busy_at (some c) + k + freed =
            ground arith in
          (
            lines',
            k,
            rw more at step ∙ runs,
            Changed-step pred lines lines' line n c k k freed freed at change changed,
          )
    ]
