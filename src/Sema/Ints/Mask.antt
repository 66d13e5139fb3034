-- ===== src/Sema/Ints/Mask.antt =====
-- For `mask` of crates/wsharp-sema/src/ty.rs.
use wsharp.Prelude.{ℕ, ◌-◌, ◌^◌, ◌<◌, ◌≡◌, inl, inr, Bool, true, false, arith, ltb, if◌then◌else◌}
use wsharp.Prelude.Int.{ℤ, pos, negsuc}
use wsharp.Sema.Ty.{IntTy}
use wsharp.Sema.Layout.Slots.{IsWidth}
use wsharp.Sema.Ints.{range, contains_int, mask}

-- A pattern read back at a type: two's complement where it is signed.
abbrev pub read_back : IntTy → ℕ → ℤ
read_back t n =
    if t.signed
    then if ltb n (2 ^ (t.bits - 1)) then pos n else negsuc (2 ^ t.bits - 1 - n)
    else pos n

-- A value that a type contains can be read back from its pattern, which has no bit past the width.
abbrev ReadsBack : ℕ → Type 0
ReadsBack b =
    (s : Bool) (v : ℤ)
    → contains_int (record { signed = s; bits = b }) v ≡ true
    → let t : IntTy = record { signed = s; bits = b } in
      (read_back t (mask t v) ≡ v) × (mask t v < 2 ^ b)

reads_8 : ReadsBack 8
unfolding contains_int range mask
reads_8 true (pos n) h = (ground arith, ground arith)
reads_8 true (negsuc n) h = (ground arith, ground arith)
reads_8 false (pos n) h = (ground arith, ground arith)
reads_8 false (negsuc n) h = absurd (cc)

reads_16 : ReadsBack 16
unfolding contains_int range mask
reads_16 true (pos n) h = (ground arith, ground arith)
reads_16 true (negsuc n) h = (ground arith, ground arith)
reads_16 false (pos n) h = (ground arith, ground arith)
reads_16 false (negsuc n) h = absurd (cc)

reads_32 : ReadsBack 32
unfolding contains_int range mask
reads_32 true (pos n) h = (ground arith, ground arith)
reads_32 true (negsuc n) h = (ground arith, ground arith)
reads_32 false (pos n) h = (ground arith, ground arith)
reads_32 false (negsuc n) h = absurd (cc)

reads_64 : ReadsBack 64
unfolding contains_int range mask
reads_64 true (pos n) h = (ground arith, ground arith)
reads_64 true (negsuc n) h = (ground arith, ground arith)
reads_64 false (pos n) h = (ground arith, ground arith)
reads_64 false (negsuc n) h = absurd (cc)

-- For an integer type of 8, 16, 32 or 64 bits, a value that the type contains has a pattern with no bit
-- past the width, and the pattern read at the type is the value.
pub mask-read_back :
    (t : IntTy) (v : ℤ)
    → IsWidth t.bits
    → contains_int t v ≡ true
    → (read_back t (mask t v) ≡ v) × (mask t v < 2 ^ t.bits)
mask-read_back t v (inl e) h = rw e (reads_8 t.signed v (rw e at h))
mask-read_back t v (inr (inl e)) h = rw e (reads_16 t.signed v (rw e at h))
mask-read_back t v (inr (inr (inl e))) h = rw e (reads_32 t.signed v (rw e at h))
mask-read_back t v (inr (inr (inr e))) h = rw e (reads_64 t.signed v (rw e at h))
