-- ===== src/Runtime/Broker/Logs.antt =====
-- Shared lemmas on the tables of crates/wsharp-runtime/src/broker.rs: the committed offsets, the search
-- of `poll`, the hash.
use Prim.Native.String.{String}
use text.Mathlib.Text.{◌==◌ as str_eq}
use text.Mathlib.TextEquality.{eq_iff}
use wsharp.Prelude.{
  ℕ, zero, suc, ◌≤◌, ◌<◌, ◌≡◌, refl, ◌⊎◌, inl, inr, max, none, some, List, [], ◌∷◌, arith, ltb,
  if◌then◌else◌, length, get_elem?, Bool-cases,
}
use wsharp.Runtime.Broker.{committed, insert, first_unread, partition_of}

pub committed-insert :
    (k j : String) (at : List ℕ) (m : List (String × List ℕ))
    → committed j (insert k at m) ≡ (if str_eq k j then some at else committed j m)
committed-insert k j at [] = refl
committed-insert k j at ((i, old) ∷ rest) =
    ground (arith, eq_iff k j, eq_iff i k, eq_iff i j, committed-insert k j at rest)

-- The hash lands in a partition.
pub partition_of-lt : (key : List ℕ) (n : ℕ) → 1 ≤ n → partition_of key n < n
unfolding partition_of
partition_of-lt key n h = let same : max n 1 ≡ n = omega arith in rw same (grind arith)

-- The first partition with something unread, or nothing unread at all.
module _ {ℓ} {W : Type ℓ} where
  abbrev pub AllRead : List (List W) → List ℕ → Type 0
  AllRead [] position = Unit
  AllRead (log ∷ logs) [] = Unit
  AllRead (log ∷ logs) (p ∷ position) = (length log ≤ p) × AllRead logs position

  -- `at` has something unread, and no partition before it has.
  abbrev pub IsFirst : List (List W) → List ℕ → ℕ → Type 0
  IsFirst [] position at = ⊥
  IsFirst (log ∷ logs) [] at = ⊥
  IsFirst (log ∷ logs) (p ∷ position) zero = p < length log
  IsFirst (log ∷ logs) (p ∷ position) (suc at) = (length log ≤ p) × IsFirst logs position at

  pub first_unread_lem :
      (logs : List (List W)) (position : List ℕ)
      → length position ≡ length logs
      → (first_unread logs position ≡ some none) × AllRead logs position
        ⊎ (at : ℕ) × (first_unread logs position ≡ some (some at)) × IsFirst logs position at
  first_unread_lem [] position h = inl (refl, tt)
  first_unread_lem (log ∷ logs) [] h = absurd (omega arith)
  first_unread_lem (log ∷ logs) (p ∷ position) h = elim (Bool-cases (ltb p (length log))) [
    | inl here ↦ inr (0, rw here refl, ground arith)
    | inr read ↦ elim (first_unread_lem logs position (omega arith)) [
      | inl (e, all) ↦ inl (rw (read, e) refl, (ground arith, all))
      | inr (at, e, first) ↦ inr (suc at, rw (read, e) refl, (ground arith, first))
    ]
  ]

  -- What `poll` reads at such a partition is there.
  pub IsFirst-get :
      (logs : List (List W)) (position : List ℕ) (at : ℕ)
      → IsFirst logs position at
      → (log : List W) × (p : ℕ) × (get_elem? logs at ≡ some log)
        × (get_elem? position at ≡ some p)
        × (p < length log)
  IsFirst-get [] position at h = absurd h
  IsFirst-get (log ∷ logs) [] at h = absurd h
  IsFirst-get (log ∷ logs) (p ∷ position) zero h = (log, p, refl, refl, h)
  IsFirst-get (log ∷ logs) (p ∷ position) (suc at) h = IsFirst-get logs position at h.1
