-- ===== src/Sema/Ints/Tests.antt =====
-- Patterns of a few values, and the theorem at one of them.
use wsharp.Prelude.{◌≡◌, ◌<◌, refl, true, false, inl}
use wsharp.Prelude.Int.{pos, negsuc}
use wsharp.Sema.Ty.{IntTy}
use wsharp.Sema.Ints.{range, contains_int, mask}
use wsharp.Sema.Ints.Mask.{read_back, mask-read_back}

abbrev i8 : IntTy
i8 = record { signed = true; bits = 8 }

range_run : range i8 ≡ (negsuc 127, pos 127)
unfolding range
range_run = refl

minus_one : contains_int i8 (negsuc 0) ≡ true
unfolding contains_int
minus_one = refl

mask_run : mask i8 (negsuc 0) ≡ 255
unfolding mask
mask_run = refl

too_large : contains_int i8 (pos 128) ≡ false
unfolding contains_int
too_large = refl

mask-read_back_example : (read_back i8 (mask i8 (negsuc 0)) ≡ negsuc 0) × (mask i8 (negsuc 0) < 256)
mask-read_back_example = mask-read_back i8 (negsuc 0) (inl refl) minus_one
