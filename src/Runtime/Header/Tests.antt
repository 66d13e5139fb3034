-- ===== src/Runtime/Header/Tests.antt =====
-- Runs on one header, and the theorems at these inputs.
use wsharp.Prelude.{ℕ, ◌+◌, ◌-◌, ◌≡◌, ◌^◌, refl, [], ◌∷◌, arith}
use wsharp.Runtime.Header.{rc_of_meta, rc_max}
use wsharp.Runtime.Header.Fields.{SameButCount}
use wsharp.Runtime.Header.Counts.{inc, dec, accesses, accesses-stuck, accesses-exact}

-- Type 16 with flag bit 0 and a count of 1, and the same with the count at its maximum.
abbrev object : ℕ
object = 16 + 2 ^ 32 + 2 ^ 40

abbrev popular : ℕ
popular = 16 + 2 ^ 32 + 2 ^ 63 - 2 ^ 40

accesses-exact_example :
    let after = accesses (inc ∷ dec ∷ dec ∷ inc ∷ []) object in
    (rc_of_meta after + 2 ≡ rc_of_meta object + 2) × SameButCount after object
unfolding rc_of_meta
accesses-exact_example = accesses-exact (inc ∷ dec ∷ dec ∷ inc ∷ []) object (omega arith) (
  omega arith,
  (omega arith, omega arith, (omega arith, omega arith, (omega arith, omega arith))),
)

accesses-stuck_example :
    let after = accesses (inc ∷ dec ∷ dec ∷ []) popular in
    (rc_of_meta after ≡ rc_max) × SameButCount after popular
unfolding rc_of_meta
accesses-stuck_example = accesses-stuck (inc ∷ dec ∷ dec ∷ []) popular (omega arith) refl
