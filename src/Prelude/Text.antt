-- ===== src/Prelude/Text.antt =====
-- Texts as lists of numbers: bytes, or the code points of a native text.
use Prim.Native.Char.{code}
use Prim.Native.Nat.{ℕ}
use Prim.Native.String.{String}
use mathlib.Core.Path.{◌≡◌, refl}
use mathlib.Core.Bool.{Bool, true, false, ◌&&◌}
use mathlib.Core.List.{List, [], ◌∷◌}
use native.Mathlib.Omega.{arith}
use wsharp.Prelude.Tests.{◌==◌}

-- The bytes of an ASCII text.
abbrev pub codes : String → List ℕ
codes String.[] = []
codes (String.◌∷◌ c s) = code c ∷ codes s

abbrev pub same_list : List ℕ → List ℕ → Bool
same_list [] [] = true
same_list [] (y ∷ ys) = false
same_list (x ∷ xs) [] = false
same_list (x ∷ xs) (y ∷ ys) = (x == y) && same_list xs ys

pub same_list→≡ : (xs ys : List ℕ) → same_list xs ys ≡ true → xs ≡ ys
same_list→≡ [] [] e = refl
same_list→≡ [] (y ∷ ys) e = absurd (cc)
same_list→≡ (x ∷ xs) [] e = absurd (cc)
same_list→≡ (x ∷ xs) (y ∷ ys) e =
    let head : x ≡ y = ground arith in
    let later : same_list xs ys ≡ true = ground arith in
    let tails = same_list→≡ xs ys later in rw (head, tails) refl

pub same_list_refl : (xs : List ℕ) → same_list xs xs ≡ true
same_list_refl [] = refl
same_list_refl (x ∷ xs) = ground (arith, same_list_refl xs)
