-- ===== src/Runtime/Heap/Evacuation/Sparse.antt =====
-- What `select_evacuation` of crates/wsharp-runtime/src/heap.rs chooses, in terms of the states of blocks and
-- their live lines alone.
use wsharp.Prelude.{
  ℕ, zero, suc, ◌+◌, ◌≤◌, ◌<◌, ◌≡◌, refl, ◌∙◌, ap, subst, ◌⊎◌, inl, inr, true, some, List, arith,
  length, get_elem?, get_elem?-lt, Bool-cases,
}
use wsharp.Prelude.Run.{ok}
use wsharp.Runtime.Heap.{BlockState, free, open_block, full, recyclable, evacuating, SpaceMeta}
use wsharp.Runtime.Heap.Evacuation.{is_chosen, select_loop}
use wsharp.Runtime.Heap.Evacuation.Chosen.{one_if, chosen_in, selected, select_loop_lem}

-- A block that is to be emptied is full or recyclable, and has from one to `max_live_lines` live lines.
pub data IsSparse (max_live_lines live : ℕ) : BlockState → Type 0 where
  in_full : 1 ≤ live → live ≤ max_live_lines → IsSparse max_live_lines live full
  in_recyclable : 1 ≤ live → live ≤ max_live_lines → IsSparse max_live_lines live recyclable

is_chosen-IsSparse :
    (max_live_lines live : ℕ) (s : BlockState)
    → is_chosen max_live_lines live s ≡ true
    → IsSparse max_live_lines live s
is_chosen-IsSparse max_live_lines live full e = in_full (ground arith) (ground arith)
is_chosen-IsSparse max_live_lines live recyclable e = in_recyclable (ground arith) (ground arith)
is_chosen-IsSparse max_live_lines live free e = absurd (ground arith)
is_chosen-IsSparse max_live_lines live open_block e = absurd (ground arith)
is_chosen-IsSparse max_live_lines live evacuating e = absurd (ground arith)

IsSparse-is_chosen :
    (max_live_lines live : ℕ) (s : BlockState)
    → IsSparse max_live_lines live s
    → is_chosen max_live_lines live s ≡ true
IsSparse-is_chosen max_live_lines live full (in_full low high) = ground arith
IsSparse-is_chosen max_live_lines live recyclable (in_recyclable low high) = ground arith
IsSparse-is_chosen max_live_lines live free h = elim h [ ]
IsSparse-is_chosen max_live_lines live open_block h = elim h [ ]
IsSparse-is_chosen max_live_lines live evacuating h = elim h [ ]

-- The number of the sparse ones among `n` blocks, from `b` on.
pub data Counted (max_live_lines : ℕ) (lives : List ℕ) (states : List BlockState)
    : ℕ → ℕ → ℕ → Type 0 where
  no_more : (b : ℕ) → Counted max_live_lines lives states b 0 0
  sparse :
      (b n k live : ℕ) (s : BlockState)
      → get_elem? lives b ≡ some live
      → get_elem? states b ≡ some s
      → IsSparse max_live_lines live s
      → Counted max_live_lines lives states (b + 1) n k
      → Counted max_live_lines lives states b (suc n) (suc k)
  other :
      (b n k live : ℕ) (s : BlockState)
      → get_elem? lives b ≡ some live
      → get_elem? states b ≡ some s
      → ¬ IsSparse max_live_lines live s
      → Counted max_live_lines lives states (b + 1) n k
      → Counted max_live_lines lives states b (suc n) k

chosen_in-Counted :
    (max_live_lines n b : ℕ) (lives : List ℕ) (states : List BlockState)
    → b + n ≤ length states
    → b + n ≤ length lives
    → Counted max_live_lines lives states b n (chosen_in max_live_lines lives states b n)
chosen_in-Counted max_live_lines zero b lives states h g = no_more b
chosen_in-Counted max_live_lines (suc n) b lives states h g =
    let (s, at) = get_elem?-lt states b (omega (arith, h)) in
    let (live, lines) = get_elem?-lt lives b (omega (arith, g)) in
    let later =
      chosen_in-Counted max_live_lines n (b + 1) lives states (omega (arith, h))
        (omega (arith, g)) in
    elim (Bool-cases (is_chosen max_live_lines live s)) [
      | inl e ↦
          let one : one_if max_live_lines lives b (get_elem? states b) ≡ 1 =
            rw (at, lines, e) refl in
          subst (Counted max_live_lines lives states b (suc n)) (omega (arith, one))
            (sparse b n _ live s lines at (is_chosen-IsSparse max_live_lines live s e) later)
      | inr e ↦
          let one : one_if max_live_lines lives b (get_elem? states b) ≡ 0 =
            rw (at, lines, e) refl in
          let apart : ¬ IsSparse max_live_lines live s =
            λ h. let clash = IsSparse-is_chosen max_live_lines live s h in absurd (cc) in
          subst (Counted max_live_lines lives states b (suc n)) (omega (arith, one))
            (other b n _ live s lines at apart later)
    ]

-- A space, and the same space with the sparse blocks among `n` from `from` on in the state `evacuating`.
pub record IsSelected (max_live_lines from n : ℕ) (m m' : SpaceMeta) : Type 0 where
  pub width : length m'.states ≡ length m.states
  pub live_lines : m'.live_lines ≡ m.live_lines
  pub line_objects : m'.line_objects ≡ m.line_objects
  pub starts : m'.starts ≡ m.starts
  pub sparse_ones :
      (b live : ℕ) (s : BlockState)
      → from ≤ b
      → b < from + n
      → get_elem? m.live_lines b ≡ some live
      → get_elem? m.states b ≡ some s
      → IsSparse max_live_lines live s
      → get_elem? m'.states b ≡ some evacuating
  pub other_ones :
      (b live : ℕ) (s : BlockState)
      → from ≤ b
      → b < from + n
      → get_elem? m.live_lines b ≡ some live
      → get_elem? m.states b ≡ some s
      → ¬ IsSparse max_live_lines live s
      → get_elem? m'.states b ≡ some s
  pub outside : (b : ℕ) → (b < from) ⊎ (from + n ≤ b) → get_elem? m'.states b ≡ get_elem? m.states b

selected-sparse :
    (max_live_lines b live : ℕ) (lives : List ℕ) (s : BlockState)
    → get_elem? lives b ≡ some live
    → IsSparse max_live_lines live s
    → selected max_live_lines lives b s ≡ evacuating
selected-sparse max_live_lines b live lives s at h =
    rw (at, IsSparse-is_chosen max_live_lines live s h) refl

selected-other :
    (max_live_lines b live : ℕ) (lives : List ℕ) (s : BlockState)
    → get_elem? lives b ≡ some live
    → ¬ IsSparse max_live_lines live s
    → selected max_live_lines lives b s ≡ s
selected-other max_live_lines b live lives s at h =
    elim (Bool-cases (is_chosen max_live_lines live s)) [
      | inl e ↦ absurd (h (is_chosen-IsSparse max_live_lines live s e))
      | inr e ↦ rw (at, e) refl
    ]

-- The loop of `select_evacuation` over `n` blocks of a space returns, for a space with a state and a count
-- of live lines for each: a block is in the state `evacuating` afterwards if it was full or recyclable and
-- has from one to `max_live_lines` live lines, every other block has the state that it had, the counts and
-- the starts of objects stay, and the number of the blocks of the first kind is added to the count.
pub select_loop-IsSelected :
    (max_live_lines n b : ℕ) (m : SpaceMeta) (chosen : ℕ)
    → b + n ≤ length m.states
    → b + n ≤ length m.live_lines
    → (k : ℕ) × (m' : SpaceMeta) × (select_loop max_live_lines n b m chosen ≡ ok (chosen + k, m'))
      × IsSelected max_live_lines b n m m'
      × Counted max_live_lines m.live_lines m.states b n k
select_loop-IsSelected max_live_lines n b m chosen h g =
    let (total, m', runs, u, count) = select_loop_lem max_live_lines n b m chosen h g in
    let lives = m.live_lines in
    let is : IsSelected max_live_lines b n m m' = record {
      width = u.width;
      live_lines = u.live_lines;
      line_objects = u.line_objects;
      starts = u.starts;
      sparse_ones = λ c live s low high lines at h.
          u.inside c s low high at
          ∙ ap some (selected-sparse max_live_lines c live lives s lines h);
      other_ones = λ c live s low high lines at h.
          u.inside c s low high at ∙ ap some (selected-other max_live_lines c live lives s lines h);
      outside = u.outside;
    } in
    (
      chosen_in max_live_lines lives m.states b n,
      m',
      runs ∙ ap (λ x. ok (x, m')) count,
      is,
      chosen_in-Counted max_live_lines n b lives m.states h g,
    )
