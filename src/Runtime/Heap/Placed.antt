-- ===== src/Runtime/Heap/Placed.antt =====
-- For an object that is placed in a hole, crates/wsharp-runtime/src/heap.rs.
use wsharp.Prelude.{
  ℕ, ◌+◌, ◌-◌, ◌*◌, ◌/◌, ◌%◌, ◌≤◌, ◌<◌, ◌≡◌, ◌⊎◌, sym, ◌∙◌, ap, inl, inr, Option, none, some, List,
  [], ◌∷◌, arith,
}
use wsharp.Prelude.Run.{ok}
use wsharp.Runtime.Heap.{SpaceMeta, block_bytes, line_bytes, find_hole, occupy}
use wsharp.Runtime.Heap.Holes.{Found, find_hole-Found}
use wsharp.Runtime.Heap.Apart.{AllApart, Found-IsRoom}
use wsharp.Runtime.Heap.Lines.Objects.{Object, IsObject, Exact}
use wsharp.Runtime.Heap.Lines.Calls.{occupy-Exact}
use wsharp.Runtime.Heap.Lines.Crowd.{IsAligned, ApartFrom, AllAligned, touching_le_16}

ApartFrom-range :
    (from to at want : ℕ) (objs : List Object)
    → from ≤ at
    → at + want ≤ to
    → AllApart from to objs
    → ApartFrom (at, want) objs
ApartFrom-range from to at want [] low high h = tt
ApartFrom-range from to at want (o ∷ os) low high (one, h) =
    (apart one, ApartFrom-range from to at want os low high h)
  where
    apart : (o.0 + o.1 ≤ from) ⊎ (to ≤ o.0) → (at + want ≤ o.0) ⊎ (o.0 + o.1 ≤ at)
    apart (inl k) = inr (omega (arith, k, low))
    apart (inr k) = inl (omega (arith, k, high))

in_one_block :
    (x want block : ℕ)
    → 1 ≤ want
    → block * block_bytes ≤ x
    → x + want ≤ block * block_bytes + block_bytes
    → (x / block_bytes ≡ block) × ((x + want - 1) / block_bytes ≡ block)
in_one_block x want block some_byte low high =
    (omega (arith, low, high, some_byte), omega (arith, low, high, some_byte))

-- An aligned object in a range of a block that no object has a byte of.
pub occupy-range :
    (base blocks : ℕ) (objs : List Object) (m : SpaceMeta) (block from to at want : ℕ)
    → Exact base blocks objs m
    → AllAligned base objs
    → block < blocks
    → base + block * block_bytes ≤ from
    → to ≤ base + block * block_bytes + block_bytes
    → AllApart from to objs
    → IsAligned base (at, want)
    → from ≤ at
    → at + want ≤ to
    → (m' : SpaceMeta) × (occupy m at want ≡ ok m')
      × Exact base blocks ((at, want) ∷ objs) m'
      × AllAligned base ((at, want) ∷ objs)
occupy-range base blocks objs m block from to at want x all inside start end apart al low high =
    let aligned : AllAligned base ((at, want) ∷ objs) =
      (al, ApartFrom-range from to at want objs low high apart, all) in
    let (first, last) =
      in_one_block (at - base) want block (omega (arith, al.some_byte)) (omega (arith, low, start))
        (omega (arith, low, high, start, end)) in
    let moved : at + want - 1 - base ≡ at - base + want - 1 =
      omega (arith, al.at_base, al.some_byte) in
    let object : IsObject base blocks (at, want) = record {
      at_base = al.at_base;
      some_byte = omega (arith, al.some_byte);
      one_block = ap (λ n. n / block_bytes) moved ∙ (last ∙ sym first);
      in_space = omega (arith, first, inside);
    } in
    let few = λ (line : ℕ). touching_le_16 base line ((at, want) ∷ objs) aligned in
    let (m', runs, y) =
      occupy-Exact base blocks m objs (at, want) x object (λ line. omega (arith, few line)) in
    (m', runs, y, aligned)

-- What an object of `want` bytes in the hole gives.
abbrev pub IsPlaced : ℕ → ℕ → List Object → SpaceMeta → ℕ → Option (ℕ × ℕ) → Type 0
IsPlaced base blocks objs m want none = Unit
IsPlaced base blocks objs m want (some (from, to)) =
    (m' : SpaceMeta) × (occupy m from want ≡ ok m')
    × Exact base blocks ((from, want) ∷ objs) m'
    × AllAligned base ((from, want) ∷ objs)

placed :
    (base blocks : ℕ) (objs : List Object) (m : SpaceMeta) (block from_line want : ℕ)
    → Exact base blocks objs m
    → AllAligned base objs
    → block < blocks
    → want % 16 ≡ 0
    → 16 ≤ want
    → (r : Option (ℕ × ℕ)) → Found m block from_line want r
    → IsPlaced base blocks objs m want r
placed base blocks objs m block from_line want x all inside granules some_byte none found = tt
placed base blocks objs m block from_line want x all inside granules some_byte (some (from, to))
      (s, e, a, b, hole) =
    let (room, start, end, apart) =
      Found-IsRoom base blocks objs m block from_line want x (some (from, to)) (s, e, a, b, hole) in
    let place : from - base ≡ block * block_bytes + s * line_bytes =
      omega (arith, a, x.same_base) in
    let al : IsAligned base (from, want) = record {
      at_base = omega (arith, start);
      starts = omega (arith, place);
      ends = granules;
      some_byte = some_byte;
    } in
    occupy-range base blocks objs m block from to from want x all inside start end apart al
      (omega arith) room

-- In a space whose metadata is exact for its objects, all of whole granules and none over another, `find_hole` returns
-- on each block, and where it finds a hole for a whole number of granules, `occupy` of an object of that size at its
-- start returns: the metadata is exact for the objects with the new one, which is over none of them. No count wraps.
pub find_hole-occupy :
    (base blocks : ℕ) (objs : List Object) (m : SpaceMeta) (block from_line want : ℕ)
    → Exact base blocks objs m
    → AllAligned base objs
    → block < blocks
    → want % 16 ≡ 0
    → 16 ≤ want
    → (r : Option (ℕ × ℕ)) × (find_hole m block from_line want ≡ ok r)
      × IsPlaced base blocks objs m want r
find_hole-occupy base blocks objs m block from_line want x all h granules some_byte =
    let (r, runs, found) = find_hole-Found m block want from_line (omega (arith, h, x.all_lines)) in
    (r, runs, placed base blocks objs m block from_line want x all h granules some_byte r found)
