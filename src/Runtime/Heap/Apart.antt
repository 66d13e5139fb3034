-- ===== src/Runtime/Heap/Apart.antt =====
-- For `find_hole` of crates/wsharp-runtime/src/heap.rs, on a space that holds objects.
use wsharp.Prelude.{
  ℕ, suc, ◌+◌, ◌-◌, ◌*◌, ◌/◌, ◌≤◌, ◌<◌, ◌≡◌, ◌⊎◌, refl, subst, sym, ◌∙◌, ap, Bool, true, false, inl,
  inr, Option, none, some, List, [], ◌∷◌, arith, leb, leb→le, if◌then◌else◌, get_elem?, Bool-cases,
}
use wsharp.Prelude.Run.{ok}
use wsharp.Runtime.Heap.{SpaceMeta, block_bytes, line_bytes, lines_per_block, find_hole}
use wsharp.Runtime.Heap.Holes.{Found, find_hole-Found}
use wsharp.Runtime.Heap.Lines.{inside_lem}
use wsharp.Runtime.Heap.Lines.Objects.{
  Object, first_line, line_count, IsObject, AllObjects, touches, touching, Exact, line_le,
}

-- No object has a byte of a range.
abbrev pub AllApart : ℕ → ℕ → List Object → Type 0
AllApart from to [] = Unit
AllApart from to (o ∷ os) = ((o.0 + o.1 ≤ from) ⊎ (to ≤ o.0)) × AllApart from to os

-- Room for `want` bytes, in the block, and no object there.
abbrev pub IsRoom : ℕ → ℕ → ℕ → List Object → Option (ℕ × ℕ) → Type 0
IsRoom base block want objs none = Unit
IsRoom base block want objs (some (from, to)) =
    (from + want ≤ to)
    × (base + block * block_bytes ≤ from)
    × (to ≤ base + block * block_bytes + block_bytes)
    × AllApart from to objs

line_bounds :
    (x s : ℕ)
    → (s * line_bytes ≤ x → s ≤ x / line_bytes) × (x < s * line_bytes → x / line_bytes < s)
line_bounds x s = (λ h. omega (arith, h), λ h. omega (arith, h))

-- An object that is not apart from the lines `s`, …, `e - 1` touches one of them.
touched_line :
    (base blocks s e : ℕ) (o : Object)
    → IsObject base blocks o
    → s < e
    → (o.0 + o.1 ≤ base + s * line_bytes)
      ⊎ (base + e * line_bytes ≤ o.0)
      ⊎ ((l : ℕ) × (s ≤ l) × (l < e) × (touches base l o ≡ true))
touched_line base blocks s e (addr, size) h k =
    elim (Bool-cases (leb (addr + size) (base + s * line_bytes))) [
      | inl before ↦ inl (leb→le _ _ before)
      | inr ends ↦ elim (Bool-cases (leb (base + e * line_bytes) addr)) [
        | inl after ↦ inr (inl (leb→le _ _ after))
        | inr in_front ↦
            let low : base + s * line_bytes < addr + size = ground arith in
            let high : addr < base + e * line_bytes = ground arith in
            let reaches = (line_bounds (addr + size - 1 - base) s).0 (omega (arith, low)) in
            let stays = (line_bounds (addr - base) e).1 (omega (arith, high, h.at_base)) in
            let some_line =
              line_le (addr - base) (addr + size - 1 - base) (omega (arith, h.some_byte)) in
            elim (Bool-cases (leb s (first_line base (addr, size)))) [
              | inl first ↦
                  let l = first_line base (addr, size) in
                  let bound : l < l + line_count base (addr, size) = omega (arith, some_line) in
                  inr (inr (l, leb→le _ _ first, stays, inside_lem l _ l (omega arith) bound))
              | inr later ↦
                  let l = first_line base (addr, size) in
                  let lt : l < s = ground arith in
                  let bound : s < l + line_count base (addr, size) =
                    omega (arith, some_line, reaches) in
                  inr (inr (s, omega arith, k, inside_lem l _ s (omega (arith, lt)) bound))
            ]
      ]
    ]

none_touches : (o : Bool) (k : ℕ) → (if o then suc k else k) ≡ 0 → (o ≡ false) × (k ≡ 0)
none_touches true k e = absurd (omega (arith, e))
none_touches false k e = (refl, e)

pub touching-some :
    (base l : ℕ) (objs : List Object)
    → touching base l objs ≡ 0
    → (o : Object) (os : List Object) → objs ≡ o ∷ os
    → (touches base l o ≡ false) × (touching base l os ≡ 0)
touching-some base l objs e o os same =
    let z : touching base l (o ∷ os) ≡ 0 = ap (touching base l) (sym same) ∙ e in
    none_touches (touches base l o) (touching base l os) z

-- No object on the lines: each is apart from them.
free-AllApart :
    (base blocks s e : ℕ) (objs : List Object)
    → s < e
    → AllObjects base blocks objs
    → ((l : ℕ) → s ≤ l → l < e → touching base l objs ≡ 0)
    → AllApart (base + s * line_bytes) (base + e * line_bytes) objs
free-AllApart base blocks s e [] k all free = tt
free-AllApart base blocks s e (o ∷ os) k (h, all) free =
    let parts =
      λ (l : ℕ) (a : s ≤ l) (b : l < e). touching-some base l (o ∷ os) (free l a b) o os refl in
    let rest = free-AllApart base blocks s e os k all (λ l a b. (parts l a b).1) in
    elim (touched_line base blocks s e o h k) [
      | inl before ↦ (inl before, rest)
      | inr (inl after) ↦ (inr after, rest)
      | inr (inr (l, a, b, t)) ↦ absurd (let miss = (parts l a b).0 in cc)
    ]

pub Found-IsRoom :
    (base blocks : ℕ) (objs : List Object) (m : SpaceMeta) (block from_line want : ℕ)
    → Exact base blocks objs m
    → (r : Option (ℕ × ℕ)) → Found m block from_line want r
    → IsRoom base block want objs r
Found-IsRoom base blocks objs m block from_line want x none found = tt
Found-IsRoom base blocks objs m block from_line want x (some (from, to)) (s, e, a, b, hole) =
    let first = block * lines_per_block + s in
    let last = block * lines_per_block + e in
    let start : base + first * line_bytes ≡ from = omega (arith, a, x.same_base) in
    let end : base + last * line_bytes ≡ to = omega (arith, b, x.same_base) in
    let free = λ (l : ℕ) (p : first ≤ l) (q : l < last).
      let back : block * lines_per_block + (l - block * lines_per_block) ≡ l = omega (arith, p) in
      let line =
        hole.all_free (l - block * lines_per_block) (omega (arith, p)) (omega (arith, p, q)) in
      sym (x.counts l 0 (ap (get_elem? m.line_objects) (sym back) ∙ line)) in
    let apart =
      free-AllApart base blocks first last objs (omega (arith, hole.some_line)) x.objects free in
    (
      omega (arith, start, end, hole.room, hole.some_line),
      omega (arith, start),
      omega (arith, end, hole.inside),
      subst (λ f. AllApart f to objs) start
          (subst (λ t. AllApart (base + first * line_bytes) t objs) end apart),
    )

-- In a space whose metadata is exact for its objects, `find_hole` returns on each block, and where it finds a hole,
-- the hole has room for `want` bytes, is inside the block, and no object has a byte in it.
pub find_hole-IsRoom :
    (base blocks : ℕ) (objs : List Object) (m : SpaceMeta) (block from_line want : ℕ)
    → Exact base blocks objs m
    → block < blocks
    → (r : Option (ℕ × ℕ)) × (find_hole m block from_line want ≡ ok r)
      × IsRoom base block want objs r
find_hole-IsRoom base blocks objs m block from_line want x h =
    let (r, runs, found) = find_hole-Found m block want from_line (omega (arith, h, x.all_lines)) in
    (r, runs, Found-IsRoom base blocks objs m block from_line want x r found)
