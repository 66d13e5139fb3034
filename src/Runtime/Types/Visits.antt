-- ===== src/Runtime/Types/Visits.antt =====
-- For `for_each_ptr_offset` and `object_size_as` of crates/wsharp-runtime/src/types.rs.
use native.Mathlib.Nat.{add-mul, suc-mul, zero-mul}
use wsharp.Prelude.{
  ℕ, zero, suc, ◌+◌, ◌*◌, ◌%◌, ◌^◌, ◌≤◌, ◌<◌, ◌≡◌, refl, subst, sym, ◌∙◌, ap, true, false, ◌||◌,
  inl, inr, some, List, [], ◌∷◌, ◌++◌, map, arith, ◌==◌, Bool-cases,
}
use wsharp.Runtime.Header.{header_size, align_up}
use wsharp.Runtime.Types.{
  TypeInfo, Registry, info, size_by, object_size_as, element_offsets, is_nil, for_each_ptr_offset,
}

-- A pointer at each offset is between two bounds.
abbrev pub AllWithin : ℕ → ℕ → List ℕ → Type 0
AllWithin low high [] = Unit
AllWithin low high (o ∷ os) = (low ≤ o) × (o + 8 ≤ high) × AllWithin low high os

-- A layout of the one form or the other, with its pointers inside the object, or inside an element.
pub data IsLayout (i : TypeInfo) : Type 0 where
  of_fields :
      1 ≤ i.size → i.elem_stride ≡ 0 → AllWithin header_size i.size i.ptr_offsets → IsLayout i
  of_elements :
      i.size ≡ 0 → i.ptr_offsets ≡ [] → AllWithin 0 i.elem_stride i.elem_ptr_offsets → IsLayout i

AllWithin-append :
    (low high : ℕ) (xs ys : List ℕ)
    → AllWithin low high xs
    → AllWithin low high ys
    → AllWithin low high (xs ++ ys)
AllWithin-append low high [] ys h k = k
AllWithin-append low high (x ∷ xs) ys (a, b, h) k = (a, b, AllWithin-append low high xs ys h k)

-- The offsets in one element, that begins at `at`.
AllWithin-shifted :
    (at stride high : ℕ) (os : List ℕ)
    → header_size ≤ at
    → at + stride ≤ high
    → high < 2 ^ 32
    → AllWithin 0 stride os
    → AllWithin header_size high (map (λ o. (at % 2 ^ 32 + o) % 2 ^ 32) os)
AllWithin-shifted at stride high [] low room small h = tt
AllWithin-shifted at stride high (o ∷ os) low room small (a, b, h) =
    let same : (at % 2 ^ 32 + o) % 2 ^ 32 ≡ at + o = omega (arith, b, room, small) in
    (
      omega (arith, same, low),
      omega (arith, same, b, room),
      AllWithin-shifted at stride high os low room small h,
    )

element_offsets-AllWithin :
    (i : TypeInfo) (k n high : ℕ)
    → AllWithin 0 i.elem_stride i.elem_ptr_offsets
    → header_size + k * i.elem_stride + n * i.elem_stride ≤ high
    → high < 2 ^ 32
    → AllWithin header_size high (element_offsets i k n)
element_offsets-AllWithin i k zero high h room small = tt
element_offsets-AllWithin i k (suc n) high h room small =
    let one = suc-mul n i.elem_stride in
    let next = add-mul k 1 i.elem_stride in
    AllWithin-append header_size high _ (element_offsets i (k + 1) n)
      (AllWithin-shifted (header_size + k * i.elem_stride) i.elem_stride high i.elem_ptr_offsets
        (omega arith) (omega (arith, room, one)) small h)
      (element_offsets-AllWithin i (k + 1) n high h (omega (arith, room, one, next)) small)

object_size_as-info :
    (r : Registry) (id aux : ℕ) (i : TypeInfo)
    → info id r ≡ some i
    → object_size_as aux id r ≡ size_by aux (some i)
unfolding object_size_as
object_size_as-info r id aux i e = ap (size_by aux) e

-- The size of an object of elements is enough for them.
align_up-room :
    (t : ℕ) → t + 16 ≤ 2 ^ 32 → (t ≤ align_up (t % 2 ^ 32)) × (align_up (t % 2 ^ 32) < 2 ^ 32)
unfolding align_up
align_up-room t h =
    let small : t % 2 ^ 32 ≡ t = omega (arith, h) in
    (rw small (omega (arith, h)), rw small (omega (arith, h)))

-- An object with the `aux` word, of either form.
sized-AllWithin :
    (aux : ℕ) (i : TypeInfo)
    → IsLayout i
    → aux < 2 ^ 32
    → header_size + aux * i.elem_stride + 16 ≤ 2 ^ 32
    → (n : ℕ) × (size_by aux (some i) ≡ some n)
      × AllWithin header_size n (for_each_ptr_offset aux i)
unfolding for_each_ptr_offset
sized-AllWithin aux i (of_fields some_size no_stride h) word room =
    let has_size : (i.size == 0) ≡ false = ground arith in
    let stop : (i.elem_stride == 0) ≡ true = ground arith in (i.size, rw has_size refl, rw stop h)
sized-AllWithin aux i (of_elements no_size no_ptrs h) word room =
    let variable : (i.size == 0) ≡ true = ground arith in
    let whole : aux % 2 ^ 32 ≡ aux = omega (arith, word) in
    let t = header_size + aux * i.elem_stride in
    let (enough, small) = align_up-room t (omega (arith, room)) in
    let none_fixed : AllWithin header_size (align_up (t % 2 ^ 32)) i.ptr_offsets =
      subst (AllWithin header_size (align_up (t % 2 ^ 32))) (sym no_ptrs) tt in
    let all =
      element_offsets-AllWithin i 0 aux (align_up (t % 2 ^ 32)) h
        (omega (arith, enough, zero-mul i.elem_stride)) small in
    elim (Bool-cases (i.elem_stride == 0 || is_nil i.elem_ptr_offsets)) [
      | inl none_there ↦
          (align_up (t % 2 ^ 32), rw (variable, whole) refl, rw none_there none_fixed)
      | inr some_there ↦ (
        align_up (t % 2 ^ 32),
        rw (variable, whole) refl,
        rw (some_there, whole)
            (AllWithin-append header_size _ i.ptr_offsets (element_offsets i 0 aux) none_fixed all),
      )
    ]

-- For a type that was published, with its pointers inside the object or the element, and an object of it that ends
-- below 2^32, `object_size_as` gives a size, and each offset that `for_each_ptr_offset` visits is of a pointer that is
-- inside that size, after the header.
pub for_each_ptr_offset-AllWithin :
    (r : Registry) (id aux : ℕ) (i : TypeInfo)
    → info id r ≡ some i
    → IsLayout i
    → aux < 2 ^ 32
    → header_size + aux * i.elem_stride + 16 ≤ 2 ^ 32
    → (n : ℕ) × (object_size_as aux id r ≡ some n)
      × AllWithin header_size n (for_each_ptr_offset aux i)
for_each_ptr_offset-AllWithin r id aux i e layout word room =
    let (n, size, all) = sized-AllWithin aux i layout word room in
    (n, object_size_as-info r id aux i e ∙ size, all)
