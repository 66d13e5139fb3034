-- ===== src/Sema/Layout/Place.antt =====
-- For `place` of crates/wsharp-sema/src/layout.rs.
use wsharp.Prelude.{
  ℕ, ◌+◌, ◌-◌, ◌*◌, ◌%◌, ◌^◌, ◌≤◌, ◌<◌, ◌≡◌, refl, inl, inr, some, List, [], ◌∷◌, arith, ◌==◌,
  if◌then◌else◌, ap, ◌∙◌,
}
use wsharp.Sema.Ty.{Ty}
use wsharp.Sema.Layout.{add32, next_multiple_of, size_of, align_of, place}
use wsharp.Sema.Layout.Slots.{IsLaid, IsShallow, tags, IsAlign, align_of-IsAlign, size_of-fits}

-- Room that is enough for the types, padding included.
abbrev pub room : List Ty → ℕ
room [] = 0
room (t ∷ ts) = 8 * (tags t + 1) + 7 + room ts

abbrev pub AllLaid : List Ty → Type 0
AllLaid [] = Unit
AllLaid (t ∷ ts) = IsLaid t × IsShallow t × AllLaid ts

-- The offsets of `ts` from `start` to `end`: each at its alignment, and its value ends before the
-- next one starts.
abbrev pub IsPlaced : List Ty → ℕ → List ℕ → ℕ → Type 0
IsPlaced [] start [] end = start ≡ end
IsPlaced [] start (o ∷ os) end = ⊥
IsPlaced (t ∷ ts) start [] end = ⊥
IsPlaced (t ∷ ts) start (o ∷ os) end =
    (n : ℕ) × (size_of t ≡ some n) × (start ≤ o) × (o % align_of t ≡ 0) × IsPlaced ts (o + n) os end

-- The multiple of `m` that `next_multiple_of` finds.
abbrev rounded : ℕ → ℕ → ℕ
rounded a m = if a % m == 0 then a else a + (m - a % m)

next_multiple_lem :
    (a m : ℕ)
    → IsAlign m
    → a + 8 < 2 ^ 32
    → (next_multiple_of a m ≡ some (rounded a m))
      × (a ≤ rounded a m)
      × (rounded a m ≤ a + 7)
      × (rounded a m % m ≡ 0)
next_multiple_lem a m (inl e) h = rw e (ground arith, ground arith, ground arith, ground arith)
next_multiple_lem a m (inr (inl e)) h =
    rw e (ground arith, ground arith, ground arith, ground arith)
next_multiple_lem a m (inr (inr (inl e))) h =
    rw e (ground arith, ground arith, ground arith, ground arith)
next_multiple_lem a m (inr (inr (inr e))) h =
    rw e (ground arith, ground arith, ground arith, ground arith)

-- On types as the analyser makes them, with room below 2^32, `place` does not fail or wrap: every
-- field is at its alignment, after the field before it, and inside the extent that is returned.
pub place-IsPlaced :
    (ts : List Ty) (start : ℕ)
    → AllLaid ts
    → start + room ts < 2 ^ 32
    → (os : List ℕ) × (end : ℕ) × (place ts start ≡ some (os, end))
      × IsPlaced ts start os end
      × (start ≤ end)
      × (end ≤ start + room ts)
unfolding place
place-IsPlaced [] start w h = ([], start, refl, refl, omega arith, omega arith)
place-IsPlaced (t ∷ ts) start (w, sh, ws) h =
    let (n, k, es, ek, al, fits, big) = size_of-fits t w sh in
    let o = rounded start (align_of t) in
    let (e, lo, hi, at) =
      next_multiple_lem start (align_of t) (align_of-IsAlign t w) (omega arith) in
    let same : add32 o n ≡ o + n = omega arith in
    let (os, end, er, placed, le, le') = place-IsPlaced ts (o + n) ws (omega arith) in
    (
      o ∷ os,
      end,
      runs o n os end e es (ap (place ts) same ∙ er),
      (n, es, lo, at, placed),
      omega arith,
      omega arith,
    )
  where
    runs :
        (o n : ℕ) (os : List ℕ) (end : ℕ)
        → next_multiple_of start (align_of t) ≡ some o
        → size_of t ≡ some n
        → place ts (add32 o n) ≡ some (os, end)
        → place (t ∷ ts) start ≡ some (o ∷ os, end)
    runs o n os end e es er = rw (e, es, er) refl
