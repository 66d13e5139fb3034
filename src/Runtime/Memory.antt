-- ===== src/Runtime/Memory.antt =====
-- A memory of a worker of the runtime, crates/wsharp-runtime: a list of addresses and what is there.
use wsharp.Prelude.{
  ℕ, ◌≡◌, ◌≢◌, refl, sym, ◌∙◌, inl, inr, Option, none, some, List, [], ◌∷◌, ◌==◌, ==→≡, false,
  arith, if◌then◌else◌, Bool-cases,
}

module _ {ℓ} {A : Type ℓ} where
  abbrev pub object_at : ℕ → List (ℕ × A) → Option A
  object_at p [] = none
  object_at p ((q, o) ∷ rest) = let later = object_at p rest in if q == p then some o else later

  -- A write at an address that has an object.
  abbrev pub put_object : ℕ → A → List (ℕ × A) → List (ℕ × A)
  put_object p o [] = []
  put_object p o ((q, old) ∷ rest) =
      let later = put_object p o rest in if q == p then (q, o) ∷ rest else (q, old) ∷ later

  pub object_at-put_self :
      (p : ℕ) (o old : A) (mem : List (ℕ × A))
      → object_at p mem ≡ some old
      → object_at p (put_object p o mem) ≡ some o
  object_at-put_self p o old [] e = absurd (cc)
  object_at-put_self p o old ((q, was) ∷ rest) e = elim (Bool-cases (q == p)) [
    | inl hit ↦ rw (hit, hit) refl
    | inr miss ↦ rw (miss, miss) (object_at-put_self p o old rest (sym (rw miss refl) ∙ e))
  ]

  pub object_at-put_ne :
      (p q : ℕ) (o : A) (mem : List (ℕ × A))
      → p ≢ q
      → object_at q (put_object p o mem) ≡ object_at q mem
  object_at-put_ne p q o [] apart = refl
  object_at-put_ne p q o ((r, was) ∷ rest) apart = elim (Bool-cases (r == p)) [
    | inl hit ↦
        let same = ==→≡ r p hit in let miss : (r == q) ≡ false = ground arith in rw (hit, miss) refl
    | inr other ↦ elim (Bool-cases (r == q)) [
      | inl hit ↦ rw (other, hit) refl
      | inr miss ↦ rw (other, miss) (object_at-put_ne p q o rest apart)
    ]
  ]
