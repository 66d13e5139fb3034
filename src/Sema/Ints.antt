-- ===== src/Sema/Ints.antt =====
-- Integer types, crates/wsharp-sema/src/ty.rs: `IntTy::size`, `range`, `contains` and `mask`. An
-- `i128` is an integer, and the `i64` that `mask` returns is its pattern of 64 bits.
pub mod Mask
mod Tests
use wsharp.Prelude.{
  ℕ, zero, suc, ◌+◌, ◌-◌, ◌%◌, ◌/◌, ◌^◌, Bool, true, false, ◌&&◌, leb, ◌==◌, if◌then◌else◌,
}
use wsharp.Prelude.Int.{ℤ, pos, negsuc}
use wsharp.Sema.Ty.{IntTy}

unfoldable pub range : IntTy → ℤ × ℤ
range t =
    if t.signed
    then (negsuc (2 ^ (t.bits - 1) - 1), pos (2 ^ (t.bits - 1) - 1))
    else (pos 0, pos (2 ^ t.bits - 1))

-- The order of integers.
abbrev pub le_int : ℤ → ℤ → Bool
le_int (pos m) (pos n) = leb m n
le_int (pos m) (negsuc n) = false
le_int (negsuc m) (pos n) = true
le_int (negsuc m) (negsuc n) = leb n m

unfoldable pub contains_int : IntTy → ℤ → Bool
unfolding range
contains_int t value = le_int (range t).0 value && le_int value (range t).1

-- `value as i64`, as a pattern.
abbrev pub as_i64 : ℤ → ℕ
as_i64 (pos n) = n % 2 ^ 64
as_i64 (negsuc n) = 2 ^ 64 - 1 - n % 2 ^ 64

unfoldable pub mask : IntTy → ℤ → ℕ
mask t value = if t.bits == 64 then as_i64 value else as_i64 value % 2 ^ t.bits
