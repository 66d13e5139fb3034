-- ===== src/Sema/Layout/Slots.antt =====
-- For sizes, slots and pointers of a value, crates/wsharp-sema/src/layout.rs.
use wsharp.Prelude.{
  ℕ, suc, ◌+◌, ◌-◌, ◌*◌, ◌%◌, ◌^◌, ◌≤◌, ◌<◌, ◌≡◌, refl, ◌⊎◌, Bool, true, false, some, List, [], ◌∷◌,
  arith, if◌then◌else◌, ap, ◌∙◌,
}
use wsharp.Sema.Ty.{Ty, con, nil, cons, int, bool, void, optional, err_union, error}
use wsharp.Sema.Layout.{
  slot_size, add32, mul32, int_size, slot_count, size_of, align_of, is_heap_pointer, ptr_offsets,
}

-- A width is 8, 16, 32 or 64 bits, and a tagged type has its payload.
abbrev pub IsWidth : ℕ → Type 0
IsWidth b = (b ≡ 8) ⊎ (b ≡ 16) ⊎ (b ≡ 32) ⊎ (b ≡ 64)

abbrev pub IsLaid : Ty → Type 0
IsLaid (con (int t) ts) = IsWidth t.bits
IsLaid (con optional nil) = ⊥
IsLaid (con optional (cons a ts)) = IsLaid a
IsLaid (con err_union nil) = ⊥
IsLaid (con err_union (cons a ts)) = IsLaid a
IsLaid _ = Unit

-- The number of tags around the innermost payload.
abbrev pub tags : Ty → ℕ
tags (con optional (cons a ts)) = suc (tags a)
tags (con err_union (cons a ts)) = suc (tags a)
tags _ = 0

abbrev pub IsShallow : Ty → Type 0
IsShallow t = tags t < 2 ^ 28

-- Slots are counted with no wrap: at least the tags, and at most one more.
slots_bounds :
    (t : Ty)
    → IsLaid t
    → IsShallow t
    → (n : ℕ) × (slot_count t ≡ some n) × (tags t ≤ n) × (n ≤ tags t + 1)
unfolding slot_count
slots_bounds (con void ts) w h = (0, refl, omega arith, omega arith)
slots_bounds (con optional nil) w h = absurd w
slots_bounds (con err_union nil) w h = absurd w
slots_bounds (con optional (cons a ts)) w h =
    let (n, e, lo, hi) = slots_bounds a w (omega arith) in
    (add32 1 n, rw e refl, omega arith, omega arith)
slots_bounds (con err_union (cons a ts)) w h =
    let (n, e, lo, hi) = slots_bounds a w (omega arith) in
    (add32 1 n, rw e refl, omega arith, omega arith)
slots_bounds t w h = (1, refl, omega arith, omega arith)

abbrev pub IsAlign : ℕ → Type 0
IsAlign m = (m ≡ 1) ⊎ (m ≡ 2) ⊎ (m ≡ 4) ⊎ (m ≡ 8)

pub align_of-IsAlign : (t : Ty) → IsLaid t → IsAlign (align_of t)
unfolding align_of
align_of-IsAlign (con void ts) w = omega arith
align_of-IsAlign (con (int t) ts) w = omega arith
align_of-IsAlign (con bool ts) w = omega arith
align_of-IsAlign (con error ts) w = omega arith
align_of-IsAlign t w = omega arith

-- The tagged case of `size_of-fits`: a word for each slot.
tagged_size :
    (t : Ty) (k : ℕ)
    → k ≤ tags t + 1
    → IsShallow t
    → (mul32 k slot_size ≡ k * 8) × ((k * 8) % 8 ≡ 0)
tagged_size t k hi h = omega arith

-- A value of a type as the analyser makes it, with fewer than 2^28 tags, has a size: a whole number of
-- its alignment, enough for its last slot, and at most a word for each tag and one more.
pub size_of-fits :
    (t : Ty)
    → IsLaid t
    → IsShallow t
    → (n : ℕ) × (k : ℕ) × (size_of t ≡ some n)
      × (slot_count t ≡ some k)
      × (n % align_of t ≡ 0)
      × ((k - 1) * 8 ≤ n)
      × (n ≤ 8 * (tags t + 1))
unfolding size_of slot_count align_of
size_of-fits (con void ts) w h = (0, 0, refl, refl, omega arith, omega arith, omega arith)
size_of-fits (con (int t) ts) w h =
    (int_size t, 1, refl, refl, ground arith, omega arith, ground arith)
size_of-fits (con bool ts) w h = (1, 1, refl, refl, omega arith, omega arith, omega arith)
size_of-fits (con error ts) w h = (4, 1, refl, refl, omega arith, omega arith, omega arith)
size_of-fits (con optional nil) w h = absurd w
size_of-fits (con err_union nil) w h = absurd w
size_of-fits (con optional (cons a ts)) w h =
    let (n, e, lo, hi) = slots_bounds a w (omega arith) in
    (
      mul32 (add32 1 n) slot_size,
      add32 1 n,
      rw e refl,
      rw e refl,
      omega arith,
      omega arith,
      omega arith,
    )
size_of-fits (con err_union (cons a ts)) w h =
    let (n, e, lo, hi) = slots_bounds a w (omega arith) in
    (
      mul32 (add32 1 n) slot_size,
      add32 1 n,
      rw e refl,
      rw e refl,
      omega arith,
      omega arith,
      omega arith,
    )
size_of-fits t w h = (8, 1, refl, refl, omega arith, omega arith, omega arith)

-- What the collector is told of a value of `t` at `base`: no offset, or one word, the last of the
-- value's slots.
abbrev pub PointsInside : Ty → ℕ → List ℕ → Type 0
PointsInside t base [] = Unit
PointsInside t base (o ∷ []) = o ≡ base + 8 * tags t
PointsInside t base (o ∷ o' ∷ os) = ⊥

-- For a value whose words end below 2^32, of a type as the analyser makes it, the collector is told of
-- no offset, or of one alone: that of the payload's word, behind the tags.
pub ptr_offsets-inside :
    (t : Ty) (base : ℕ)
    → IsLaid t
    → base + 8 * (tags t + 1) < 2 ^ 32
    → (os : List ℕ) × (ptr_offsets t base ≡ some os) × PointsInside t base os
unfolding ptr_offsets
ptr_offsets-inside (con void ts) base w h = ([], refl, tt)
ptr_offsets-inside (con optional nil) base w h = absurd w
ptr_offsets-inside (con err_union nil) base w h = absurd w
ptr_offsets-inside (con optional (cons a ts)) base w h =
    let same : add32 base slot_size ≡ base + 8 = omega arith in
    let (os, e, p) = ptr_offsets-inside a (base + 8) w (omega arith) in
    (os, ap (ptr_offsets a) same ∙ e, shift os p)
  where
    shift :
        (os : List ℕ)
        → PointsInside a (base + 8) os
        → PointsInside (con optional (cons a ts)) base os
    shift [] p = tt
    shift (o ∷ []) p = omega arith
    shift (o ∷ o' ∷ os) p = p
ptr_offsets-inside (con err_union (cons a ts)) base w h =
    let same : add32 base slot_size ≡ base + 8 = omega arith in
    let (os, e, p) = ptr_offsets-inside a (base + 8) w (omega arith) in
    (os, ap (ptr_offsets a) same ∙ e, shift os p)
  where
    shift :
        (os : List ℕ)
        → PointsInside a (base + 8) os
        → PointsInside (con err_union (cons a ts)) base os
    shift [] p = tt
    shift (o ∷ []) p = omega arith
    shift (o ∷ o' ∷ os) p = p
ptr_offsets-inside t base w h =
    (if is_heap_pointer t then base ∷ [] else [], refl, here (is_heap_pointer t))
  where
    here : (b : Bool) → PointsInside t base (if b then base ∷ [] else [])
    here true = omega arith
    here false = tt
