-- ===== src/Runtime/Heap/Evacuation/Chosen.antt =====
-- For `select_evacuation` and `revert_evacuation` of crates/wsharp-runtime/src/heap.rs.
use wsharp.Prelude.{
  ℕ, zero, suc, ◌+◌, ◌≤◌, ◌<◌, ◌≡◌, ◌≢◌, refl, sym, ◌∙◌, ap, ◌⊎◌, inl, inr, Bool, Option, none,
  some, List, [], ◌∷◌, arith, ◌==◌, ==→≡, ==→≢, if◌then◌else◌, length, get_elem?, set, length-set,
  get_elem?-lt, get_elem?-set_self, get_elem?-set_ne, some_inj, Bool-cases,
}
use wsharp.Prelude.Run.{ok}
use wsharp.Runtime.Heap.{BlockState, full, evacuating, SpaceMeta, set_state}
use wsharp.Runtime.Heap.Evacuation.{is_evacuating_state, is_chosen, select_loop, revert_loop}

-- A space with a state for each block, where `next` gives the state of a block from its old one.
pub record IsUpdated (from n : ℕ) (next : ℕ → BlockState → BlockState) (m m' : SpaceMeta)
    : Type 0 where
  pub width : length m'.states ≡ length m.states
  pub live_lines : m'.live_lines ≡ m.live_lines
  pub line_objects : m'.line_objects ≡ m.line_objects
  pub starts : m'.starts ≡ m.starts
  pub inside :
      (b : ℕ) (s : BlockState)
      → from ≤ b
      → b < from + n
      → get_elem? m.states b ≡ some s
      → get_elem? m'.states b ≡ some (next b s)
  pub outside : (b : ℕ) → (b < from) ⊎ (from + n ≤ b) → get_elem? m'.states b ≡ get_elem? m.states b

-- One block, then the later ones.
IsUpdated-cons :
    (b n : ℕ) (next : ℕ → BlockState → BlockState) (m m1 m' : SpaceMeta) (s : BlockState)
    → get_elem? m.states b ≡ some s
    → b < length m.states
    → m1 ≡ set_state m b (next b s)
    → IsUpdated (b + 1) n next m1 m'
    → IsUpdated b (suc n) next m m'
IsUpdated-cons b n next m m1 m' s at room e u = record {
  width = u.width ∙ (ap (λ (x : SpaceMeta). length x.states) e ∙ length-set m.states b (next b s));
  live_lines = u.live_lines ∙ ap (λ (x : SpaceMeta). x.live_lines) e;
  line_objects = u.line_objects ∙ ap (λ (x : SpaceMeta). x.line_objects) e;
  starts = u.starts ∙ ap (λ (x : SpaceMeta). x.starts) e;
  inside = λ c t low high f. elim (Bool-cases (b == c)) [
    | inl hit ↦
        let same : b ≡ c = ==→≡ b c hit in
        let old : s ≡ t = some_inj s t (sym at ∙ (ap (get_elem? m.states) same ∙ f)) in
        u.outside c (inl (omega (arith, same)))
        ∙ (states c
            ∙ (ap (get_elem? (set m.states b (next b s))) (sym same)
                ∙ (get_elem?-set_self m.states b (next b s) room
                    ∙ (ap (λ a. some (next b a)) old ∙ ap (λ a. some (next a t)) same))))
    | inr miss ↦
        let apart = ==→≢ b c miss in
        u.inside c t (omega (arith, low, apart)) (omega (arith, high))
          (states c ∙ (get_elem?-set_ne m.states (next b s) apart ∙ f))
  ];
  outside = λ c h.
      u.outside c (later c h) ∙ (states c ∙ get_elem?-set_ne m.states (next b s) (other c h));
}
  where
    states : (c : ℕ) → get_elem? m1.states c ≡ get_elem? (set m.states b (next b s)) c
    states c = ap (λ (x : SpaceMeta). get_elem? x.states c) e

    later : (c : ℕ) → (c < b) ⊎ (b + suc n ≤ c) → (c < b + 1) ⊎ (b + 1 + n ≤ c)
    later c (inl h) = inl (omega (arith, h))
    later c (inr h) = inr (omega (arith, h))

    other : (c : ℕ) → (c < b) ⊎ (b + suc n ≤ c) → b ≢ c
    other c (inl h) = omega (arith, h)
    other c (inr h) = omega (arith, h)

abbrev pub reverted : ℕ → BlockState → BlockState
reverted b s = if is_evacuating_state s then full else s

set_same :
    (m : SpaceMeta) (b : ℕ) (s : BlockState) → get_elem? m.states b ≡ some s → m ≡ set_state m b s
set_same m b s e = ap (λ states. record m { states = states }) (sym (same m.states b s e))
  where
    same :
        (xs : List BlockState) (i : ℕ) (x : BlockState) → get_elem? xs i ≡ some x → set xs i x ≡ xs
    same [] i x e = refl
    same (y ∷ xs) zero x e = ap (λ z. z ∷ xs) (sym (some_inj y x e))
    same (y ∷ xs) (suc i) x e = ap (◌∷◌ y) (same xs i x e)

revert_loop-IsUpdated :
    (n b : ℕ) (m : SpaceMeta)
    → b + n ≤ length m.states
    → (m' : SpaceMeta) × (revert_loop n b m ≡ ok m') × IsUpdated b n reverted m m'
unfolding revert_loop
revert_loop-IsUpdated zero b m h = (
  m,
  refl,
  record {
    width = refl;
    live_lines = refl;
    line_objects = refl;
    starts = refl;
    inside = λ c s low high e. absurd (omega (arith, low, high));
    outside = λ c k. refl;
  },
)
revert_loop-IsUpdated (suc n) b m h =
    let (s, at) = get_elem?-lt m.states b (omega (arith, h)) in
    let room : b < length m.states = omega (arith, h) in
    elim (Bool-cases (is_evacuating_state s)) [
      | inl e ↦
          let m1 = set_state m b full in
          let (m', runs, u) =
            revert_loop-IsUpdated n (b + 1) m1 (omega (arith, h, length-set m.states b full)) in
          let now : m1 ≡ set_state m b (reverted b s) = rw e refl in
          (m', rw (at, e) runs, IsUpdated-cons b n reverted m m1 m' s at room now u)
      | inr e ↦
          let (m', runs, u) = revert_loop-IsUpdated n (b + 1) m (omega (arith, h)) in
          let now : m ≡ set_state m b (reverted b s) = rw e (set_same m b s at) in
          (m', rw (at, e) runs, IsUpdated-cons b n reverted m m m' s at room now u)
    ]

abbrev pub or_zero : Option ℕ → ℕ
or_zero none = 0
or_zero (some n) = n

abbrev pub chosen_by : ℕ → List ℕ → ℕ → BlockState → Bool
chosen_by max_live_lines lives b s = is_chosen max_live_lines (or_zero (get_elem? lives b)) s

abbrev pub selected : ℕ → List ℕ → ℕ → BlockState → BlockState
selected max_live_lines lives b s = if chosen_by max_live_lines lives b s then evacuating else s

abbrev pub one_if : ℕ → List ℕ → ℕ → Option BlockState → ℕ
one_if max_live_lines lives b none = 0
one_if max_live_lines lives b (some s) = if chosen_by max_live_lines lives b s then 1 else 0

-- How many of `n` blocks are chosen, from `b` on.
abbrev pub chosen_in : ℕ → List ℕ → List BlockState → ℕ → ℕ → ℕ
chosen_in max_live_lines lives states b zero = 0
chosen_in max_live_lines lives states b (suc n) =
    one_if max_live_lines lives b (get_elem? states b)
    + chosen_in max_live_lines lives states (b + 1) n

chosen_in-later :
    (max_live_lines : ℕ) (lives : List ℕ) (xs ys : List BlockState) (b n : ℕ)
    → ((c : ℕ) → b ≤ c → get_elem? xs c ≡ get_elem? ys c)
    → chosen_in max_live_lines lives xs b n ≡ chosen_in max_live_lines lives ys b n
chosen_in-later max_live_lines lives xs ys b zero h = refl
chosen_in-later max_live_lines lives xs ys b (suc n) h =
    let here = ap (one_if max_live_lines lives b) (h b (omega arith)) in
    let later =
      chosen_in-later max_live_lines lives xs ys (b + 1) n (λ c k. h c (omega (arith, k))) in
    omega (arith, here, later)

-- The loop, in terms of the code's own test.
pub select_loop_lem :
    (max_live_lines n b : ℕ) (m : SpaceMeta) (chosen : ℕ)
    → b + n ≤ length m.states
    → b + n ≤ length m.live_lines
    → (k : ℕ) × (m' : SpaceMeta) × (select_loop max_live_lines n b m chosen ≡ ok (k, m'))
      × IsUpdated b n (selected max_live_lines m.live_lines) m m'
      × (k ≡ chosen + chosen_in max_live_lines m.live_lines m.states b n)
unfolding select_loop
select_loop_lem max_live_lines zero b m chosen h g = (
  chosen,
  m,
  refl,
  record {
    width = refl;
    live_lines = refl;
    line_objects = refl;
    starts = refl;
    inside = λ c s low high e. absurd (omega (arith, low, high));
    outside = λ c k. refl;
  },
  omega arith,
)
select_loop_lem max_live_lines (suc n) b m chosen h g =
    let next = selected max_live_lines m.live_lines in
    let (s, at) = get_elem?-lt m.states b (omega (arith, h)) in
    let (live, lines) = get_elem?-lt m.live_lines b (omega (arith, g)) in
    let room : b < length m.states = omega (arith, h) in
    elim (Bool-cases (is_chosen max_live_lines live s)) [
      | inl e ↦
          let m1 = set_state m b evacuating in
          let (k, m', runs, u, count) =
            select_loop_lem max_live_lines n (b + 1) m1 (chosen + 1)
              (omega (arith, h, length-set m.states b evacuating)) (omega (arith, g)) in
          let now : m1 ≡ set_state m b (next b s) = rw (lines, e) refl in
          let one : one_if max_live_lines m.live_lines b (get_elem? m.states b) ≡ 1 =
            rw (at, lines, e) refl in
          let rest =
            chosen_in-later max_live_lines m.live_lines (set m.states b evacuating) m.states (b + 1)
              n (λ c k. get_elem?-set_ne m.states evacuating (omega (arith, k))) in
          (
            k,
            m',
            rw (lines, at, e) runs,
            IsUpdated-cons b n next m m1 m' s at room now u,
            omega (arith, count, one, rest),
          )
      | inr e ↦
          let (k, m', runs, u, count) =
            select_loop_lem max_live_lines n (b + 1) m chosen (omega (arith, h))
              (omega (arith, g)) in
          let now : m ≡ set_state m b (next b s) = rw (lines, e) (set_same m b s at) in
          let one : one_if max_live_lines m.live_lines b (get_elem? m.states b) ≡ 0 =
            rw (at, lines, e) refl in
          (
            k,
            m',
            rw (lines, at, e) runs,
            IsUpdated-cons b n next m m m' s at room now u,
            omega (arith, count, one),
          )
    ]
