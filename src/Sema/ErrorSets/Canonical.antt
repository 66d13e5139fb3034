-- ===== src/Sema/ErrorSets/Canonical.antt =====
-- The key of a set of errors, for `err_set` of crates/wsharp-sema/src/ty.rs.
use wsharp.Prelude.{
  ℕ, suc, ◌≤◌, ◌<◌, ◌≡◌, refl, sym, ◌∙◌, ap, ◌⊎◌, inl, inr, false, ◌||◌, List, [], ◌∷◌, arith, ◌==◌,
  ==→≡, leb, Bool-cases, subst,
}
use wsharp.Sema.Schemes.{contains}
use wsharp.Sema.ErrorSets.{sorted_in, sort_unstable, dedup}

contains-sorted_in :
    (x a : ℕ) (xs : List ℕ) → contains x (sorted_in a xs) ≡ (a == x) || contains x xs
contains-sorted_in x a [] = refl
contains-sorted_in x a (y ∷ ys) = ground (arith, contains-sorted_in x a ys)

contains-sort : (x : ℕ) (xs : List ℕ) → contains x (sort_unstable xs) ≡ contains x xs
contains-sort x [] = refl
contains-sort x (y ∷ ys) =
    contains-sorted_in x y (sort_unstable ys) ∙ ap (◌||◌ (y == x)) (contains-sort x ys)

contains-dedup : (x : ℕ) (xs : List ℕ) → contains x (dedup xs) ≡ contains x xs
contains-dedup x [] = refl
contains-dedup x (y ∷ []) = refl
contains-dedup x (y ∷ z ∷ zs) = ground (arith, contains-dedup x (z ∷ zs))

-- From `lo` up, with repetitions and without.
abbrev IsSorted : ℕ → List ℕ → Type 0
IsSorted lo [] = Unit
IsSorted lo (x ∷ xs) = (lo ≤ x) × IsSorted x xs

abbrev IsRising : ℕ → List ℕ → Type 0
IsRising lo [] = Unit
IsRising lo (x ∷ xs) = (lo ≤ x) × IsRising (suc x) xs

sorted_in-IsSorted :
    (lo a : ℕ) (xs : List ℕ) → lo ≤ a → IsSorted lo xs → IsSorted lo (sorted_in a xs)
sorted_in-IsSorted lo a [] le s = (le, tt)
sorted_in-IsSorted lo a (x ∷ xs) le (lx, s) = elim (Bool-cases (leb a x)) [
  | inl e ↦ rw e (le, (ground arith, s))
  | inr e ↦ rw e (lx, sorted_in-IsSorted x a xs (ground arith) s)
]

sort-IsSorted : (xs : List ℕ) → IsSorted 0 (sort_unstable xs)
sort-IsSorted [] = tt
sort-IsSorted (x ∷ xs) = sorted_in-IsSorted 0 x (sort_unstable xs) (omega arith) (sort-IsSorted xs)

dedup-IsRising : (lo : ℕ) (xs : List ℕ) → IsSorted lo xs → IsRising lo (dedup xs)
dedup-IsRising lo [] s = tt
dedup-IsRising lo (x ∷ []) (le, s) = (le, tt)
dedup-IsRising lo (x ∷ y ∷ rest) (le, (le', s)) = elim (Bool-cases (x == y)) [
  | inl e ↦ rw e (dedup-IsRising lo (y ∷ rest) (omega arith, s))
  | inr e ↦ rw e (le, dedup-IsRising (suc x) (y ∷ rest) (ground arith, s))
]

-- Nothing below `lo` is in a list from `lo` up.
rising_below : (x lo : ℕ) (xs : List ℕ) → x < lo → IsRising lo xs → contains x xs ≡ false
rising_below x lo [] lt r = refl
rising_below x lo (y ∷ ys) lt (le, r) =
    let rest = rising_below x (suc y) ys (omega arith) r in ground arith

three_ways : (x y : ℕ) → (x < y) ⊎ (x ≡ y) ⊎ (y < x)
three_ways x y = omega arith

module _ (x y : ℕ) (xs ys : List ℕ) (r : IsRising (suc x) xs) (q : IsRising (suc y) ys)
    (same : (z : ℕ) → contains z (x ∷ xs) ≡ contains z (y ∷ ys)) where
  same_head : x ≡ y
  same_head = elim (three_ways x y) [
    | inl lt ↦
        let none_here = rising_below x (suc y) ys (omega arith) q in
        absurd (ground (arith, same x, none_here))
    | inr (inl e) ↦ e
    | inr (inr lt) ↦
        let none_here = rising_below y (suc x) xs (omega arith) r in
        absurd (ground (arith, same y, none_here))
  ]

  same_tail : (z : ℕ) → contains z xs ≡ contains z ys
  same_tail z = elim (Bool-cases (x == z)) [
    | inl hit ↦
        let head = same_head in
        let at : x ≡ z = ==→≡ x z hit in
        rising_below z (suc x) xs (omega arith) r ∙ sym (rising_below z (suc y) ys (omega arith) q)
    | inr miss ↦ let head = same_head in ground (arith, same z)
  ]

rising_unique :
    (lo : ℕ) (xs ys : List ℕ)
    → IsRising lo xs
    → IsRising lo ys
    → ((x : ℕ) → contains x xs ≡ contains x ys)
    → xs ≡ ys
rising_unique lo [] [] r q same = refl
rising_unique lo [] (y ∷ ys) r q same = absurd (ground (arith, same y))
rising_unique lo (x ∷ xs) [] r q same = absurd (ground (arith, same x))
rising_unique lo (x ∷ xs) (y ∷ ys) (lx, r) (ly, q) same =
    let head : x ≡ y = same_head x y xs ys r q same in
    let q' : IsRising (suc x) ys = subst (λ n. IsRising (suc n) ys) (sym head) q in
    let tails = rising_unique (suc x) xs ys r q' (same_tail x y xs ys r q same) in
    rw (head, tails) refl

pub contains-canonical :
    (x : ℕ) (es : List ℕ) → contains x (dedup (sort_unstable es)) ≡ contains x es
contains-canonical x es = contains-dedup x (sort_unstable es) ∙ contains-sort x es

pub canonical :
    (es fs : List ℕ)
    → ((x : ℕ) → contains x es ≡ contains x fs)
    → dedup (sort_unstable es) ≡ dedup (sort_unstable fs)
canonical es fs same =
    rising_unique 0 _ _ (dedup-IsRising 0 _ (sort-IsSorted es))
      (dedup-IsRising 0 _ (sort-IsSorted fs))
      (λ x. contains-canonical x es ∙ same x ∙ sym (contains-canonical x fs))
