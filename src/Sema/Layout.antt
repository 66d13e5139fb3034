-- ===== src/Sema/Layout.antt =====
-- How values are laid out, crates/wsharp-sema/src/layout.rs. A type here is resolved, as
-- monomorphisation leaves it, so that `store.resolve` gives it back; `none` is the panic of
-- `args[0]` on a tagged type with no argument, or a multiple of zero. Offsets are `u32`s, and their
-- sums wrap.
pub mod Slots
pub mod Place
mod Tests
use wsharp.Prelude.{
  ℕ, zero, suc, ◌+◌, ◌-◌, ◌*◌, ◌/◌, ◌%◌, ◌^◌, ◌≡◌, refl, Bool, true, false, Option, none, some,
  List, [], ◌∷◌, ◌++◌, ltb, ◌==◌, if◌then◌else◌, length, map,
}
use wsharp.Sema.Ty.{
  Ty, IntTy, TyCon, Args, var, con, nil, cons, int, f64, bool, void, str, fn, optional, err_union,
  error, array, worker, error_set, struct, abstract,
}

abbrev pub slot_size : ℕ
slot_size = 8

abbrev pub u32_mod : ℕ
u32_mod = 2 ^ 32

abbrev pub add32 : ℕ → ℕ → ℕ
add32 a b = (a + b) % u32_mod

abbrev pub mul32 : ℕ → ℕ → ℕ
mul32 a b = (a * b) % u32_mod

abbrev pub then_some {ℓ κ} : {A : Type ℓ} {B : Type κ} → Option A → (A → Option B) → Option B
then_some none k = none
then_some (some a) k = k a

pub then_some-eq-some {ℓ κ} :
    {A : Type ℓ} {B : Type κ} (o : Option A) (k : A → Option B) (b : B)
    → then_some o k ≡ some b
    → (a : A) × (o ≡ some a) × (k a ≡ some b)
then_some-eq-some none k b e = absurd (cc)
then_some-eq-some (some a) k b e = (a, refl, e)

-- `IntTy::size`.
abbrev pub int_size : IntTy → ℕ
int_size t = t.bits / 8

unfoldable pub slot_count : Ty → Option ℕ
slot_count (con void ts) = some 0
slot_count (con optional nil) = none
slot_count (con optional (cons a ts)) = then_some (slot_count a) (λ n. some (add32 1 n))
slot_count (con err_union nil) = none
slot_count (con err_union (cons a ts)) = then_some (slot_count a) (λ n. some (add32 1 n))
slot_count _ = some 1

unfoldable pub size_of : Ty → Option ℕ
unfolding slot_count
size_of (con void ts) = some 0
size_of (con (int t) ts) = some (int_size t)
size_of (con bool ts) = some 1
size_of (con error ts) = some 4
size_of (con optional ts) = then_some (slot_count (con optional ts)) (λ n. some (mul32 n slot_size))
size_of (con err_union ts) =
    then_some (slot_count (con err_union ts)) (λ n. some (mul32 n slot_size))
size_of _ = some slot_size

unfoldable pub align_of : Ty → ℕ
align_of (con void ts) = 1
align_of (con (int t) ts) = int_size t
align_of (con bool ts) = 1
align_of (con error ts) = 4
align_of _ = slot_size

unfoldable pub is_heap_pointer : Ty → Bool
is_heap_pointer (con str ts) = true
is_heap_pointer (con (struct id) ts) = true
is_heap_pointer (con fn ts) = true
is_heap_pointer (con array ts) = true
is_heap_pointer _ = false

-- `u32::next_multiple_of`.
abbrev pub next_multiple_of : ℕ → ℕ → Option ℕ
next_multiple_of a m =
    if m == 0 then none else if a % m == 0 then some a else some (add32 a (m - a % m))

-- The loop of `place`, from the offset that it has reached: the offsets of the types that are left.
unfoldable pub place : List Ty → ℕ → Option (List ℕ × ℕ)
unfolding size_of align_of
place [] offset = some ([], offset)
place (t ∷ ts) offset = then_some (next_multiple_of offset (align_of t)) (λ at.
    then_some (size_of t)
      (λ n. then_some (place ts (add32 at n)) (λ (rest, end). some (at ∷ rest, end))))

-- What `ptr_offsets` pushes onto its list.
unfoldable pub ptr_offsets : Ty → ℕ → Option (List ℕ)
unfolding is_heap_pointer
ptr_offsets (con void ts) base = some []
ptr_offsets (con optional nil) base = none
ptr_offsets (con optional (cons a ts)) base = ptr_offsets a (add32 base slot_size)
ptr_offsets (con err_union nil) base = none
ptr_offsets (con err_union (cons a ts)) base = ptr_offsets a (add32 base slot_size)
ptr_offsets t base = some (if is_heap_pointer t then base ∷ [] else [])

unfoldable pub elem_layout : Ty → Option (ℕ × List ℕ)
unfolding size_of ptr_offsets
elem_layout t =
    then_some (size_of t) (λ stride. then_some (ptr_offsets t 0) (λ at. some (stride, at)))
