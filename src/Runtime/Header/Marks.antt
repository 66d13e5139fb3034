-- ===== src/Runtime/Header/Marks.antt =====
-- For flags, marks and forwarding in crates/wsharp-runtime/src/header.rs, and `align_up`.
use wsharp.Prelude.{
  ℕ, ◌+◌, ◌-◌, ◌*◌, ◌/◌, ◌%◌, ◌^◌, ◌≤◌, ◌<◌, ◌≡◌, refl, true, false, not, arith, ◌==◌, ◌⊎◌, inl,
  inr, ap, ◌∙◌, Bool-cases,
}
use wsharp.Runtime.Header.{
  rc_of_meta, type_id_of_meta, is_forwarded_meta, Flag, immortal, marked, logged, dead, bit_of,
  test_flag, set_flag, clear_flag, marked_bit, flip_mark_parity, is_marked, claim_mark,
  forwarding_meta, forwarding_target, won, lost, try_forward, follow_forwarding, forwarded,
  align_up,
}

-- `m` and `n` have the same type id and count, and one is forwarded if the other is.
abbrev pub SameObject : ℕ → ℕ → Type 0
SameObject m n =
    (type_id_of_meta m ≡ type_id_of_meta n)
    × (rc_of_meta m ≡ rc_of_meta n)
    × (is_forwarded_meta m ≡ is_forwarded_meta n)

-- A bit that is clear can be set, and one that is set can be cleared, with no carry.
set-SameObject :
    (flag : Flag) (meta : ℕ)
    → meta < 2 ^ 64
    → meta / bit_of flag % 2 ≡ 0
    → SameObject (meta + bit_of flag) meta
      × (meta + bit_of flag < 2 ^ 64)
      × ((meta + bit_of flag) / bit_of flag % 2 ≡ 1)
unfolding type_id_of_meta rc_of_meta is_forwarded_meta
set-SameObject immortal meta h e =
    ((omega arith, omega arith, ap (λ n. (n % 2) == 1) (omega arith)), omega arith, omega arith)
set-SameObject marked meta h e =
    ((omega arith, omega arith, ap (λ n. (n % 2) == 1) (omega arith)), omega arith, omega arith)
set-SameObject logged meta h e =
    ((omega arith, omega arith, ap (λ n. (n % 2) == 1) (omega arith)), omega arith, omega arith)
set-SameObject dead meta h e =
    ((omega arith, omega arith, ap (λ n. (n % 2) == 1) (omega arith)), omega arith, omega arith)

cleared-SameObject :
    (flag : Flag) (meta : ℕ)
    → meta < 2 ^ 64
    → meta / bit_of flag % 2 ≡ 1
    → SameObject (meta - bit_of flag) meta
      × (meta - bit_of flag < 2 ^ 64)
      × ((meta - bit_of flag) / bit_of flag % 2 ≡ 0)
unfolding type_id_of_meta rc_of_meta is_forwarded_meta
cleared-SameObject immortal meta h e =
    ((omega arith, omega arith, ap (λ n. (n % 2) == 1) (omega arith)), omega arith, omega arith)
cleared-SameObject marked meta h e =
    ((omega arith, omega arith, ap (λ n. (n % 2) == 1) (omega arith)), omega arith, omega arith)
cleared-SameObject logged meta h e =
    ((omega arith, omega arith, ap (λ n. (n % 2) == 1) (omega arith)), omega arith, omega arith)
cleared-SameObject dead meta h e =
    ((omega arith, omega arith, ap (λ n. (n % 2) == 1) (omega arith)), omega arith, omega arith)

SameObject-refl : (meta : ℕ) → SameObject meta meta
SameObject-refl meta = (refl, refl, refl)

-- What the functions on flags do, by the bit.
module _ (flag : Flag) (meta : ℕ) where
  test_flag-set : meta / bit_of flag % 2 ≡ 1 → test_flag meta flag ≡ true
  unfolding test_flag
  test_flag-set e = rw e refl

  test_flag-clear : meta / bit_of flag % 2 ≡ 0 → test_flag meta flag ≡ false
  unfolding test_flag
  test_flag-clear e = rw e refl

  set_flag-set : meta / bit_of flag % 2 ≡ 1 → set_flag meta flag ≡ (meta, false)
  unfolding set_flag test_flag
  set_flag-set e = rw e refl

  set_flag-clear : meta / bit_of flag % 2 ≡ 0 → set_flag meta flag ≡ (meta + bit_of flag, true)
  unfolding set_flag test_flag
  set_flag-clear e = rw e refl

  clear_flag-set : meta / bit_of flag % 2 ≡ 1 → clear_flag meta flag ≡ meta - bit_of flag
  unfolding clear_flag test_flag
  clear_flag-set e = rw e refl

  clear_flag-clear : meta / bit_of flag % 2 ≡ 0 → clear_flag meta flag ≡ meta
  unfolding clear_flag test_flag
  clear_flag-clear e = rw e refl

-- A bit is 0 or 1.
bit-cases : (n : ℕ) → (n % 2 ≡ 0) ⊎ (n % 2 ≡ 1)
bit-cases n = omega arith

-- A call that sets a flag reports that it did if the flag was clear, and no call after it reports
-- so. The flag is set after it, the type id, the count and the forwarding bit are as before, and
-- clearing the flag afterwards gives the word that clearing it before would give, with the flag clear.
pub set_flag-once :
    (flag : Flag) (meta : ℕ)
    → meta < 2 ^ 64
    → let r = set_flag meta flag in
      (r.1 ≡ not (test_flag meta flag))
      × (test_flag r.0 flag ≡ true)
      × (set_flag r.0 flag ≡ (r.0, false))
      × (clear_flag r.0 flag ≡ clear_flag meta flag)
      × (test_flag (clear_flag r.0 flag) flag ≡ false)
      × SameObject r.0 meta
set_flag-once flag meta h = elim (bit-cases (meta / bit_of flag)) [
  | inr e ↦
      let (same, small, off) = cleared-SameObject flag meta h e in
      rw (set_flag-set flag meta e, test_flag-set flag meta e, clear_flag-set flag meta e)
        (
          refl,
          refl,
          set_flag-set flag meta e,
          refl,
          test_flag-clear flag (meta - bit_of flag) off,
          SameObject-refl meta,
        )
  | inl e ↦
      let (same, small, on) = set-SameObject flag meta h e in
      let back : meta + bit_of flag - bit_of flag ≡ meta = omega arith in
      rw (set_flag-clear flag meta e, test_flag-clear flag meta e, clear_flag-clear flag meta e)
        (
          refl,
          test_flag-set flag (meta + bit_of flag) on,
          set_flag-set flag (meta + bit_of flag) on,
          clear_flag-set flag (meta + bit_of flag) on ∙ back,
          rw (clear_flag-set flag (meta + bit_of flag) on, back) (test_flag-clear flag meta e),
          same,
        )
]

-- A parity is 0 or the bit.
abbrev pub IsParity : ℕ → Type 0
IsParity parity = (parity ≡ 0) ⊎ (parity ≡ marked_bit)

pub claim_mark-marked :
    (parity meta : ℕ) → is_marked parity meta ≡ true → claim_mark parity meta ≡ (meta, false)
unfolding claim_mark
claim_mark-marked parity meta e = rw e refl

pub claim_mark-unmarked :
    (parity meta : ℕ)
    → is_marked parity meta ≡ false
    → claim_mark parity meta ≡ (meta - meta / marked_bit % 2 * marked_bit + parity, true)
unfolding claim_mark
claim_mark-unmarked parity meta e = rw e refl

flip-unmarks :
    (parity meta : ℕ)
    → IsParity parity
    → is_marked parity meta ≡ true
    → is_marked (flip_mark_parity parity) meta ≡ false
unfolding is_marked flip_mark_parity
flip-unmarks parity meta (inl p) e = rw p (ground arith)
flip-unmarks parity meta (inr p) e = rw p (ground arith)

-- The word that a claim writes.
claimed :
    (parity meta : ℕ)
    → meta < 2 ^ 64
    → IsParity parity
    → is_marked parity meta ≡ false
    → let next = meta - meta / marked_bit % 2 * marked_bit + parity in
      (is_marked parity next ≡ true) × SameObject next meta
unfolding is_marked
claimed parity meta h (inl p) e =
    let bit : meta / marked_bit % 2 ≡ 1 = ground arith in
    let (same, small, off) = cleared-SameObject marked meta h bit in
    let next : meta - meta / marked_bit % 2 * marked_bit + parity ≡ meta - marked_bit =
      omega arith in
    rw (next, off, p) (refl, same)
claimed parity meta h (inr p) e =
    let bit : meta / marked_bit % 2 ≡ 0 = ground arith in
    let (same, small, on) = set-SameObject marked meta h bit in
    let next : meta - meta / marked_bit % 2 * marked_bit + parity ≡ meta + marked_bit =
      omega arith in
    rw (next, on, p) (refl, same)

-- A claim on a mark wins if the object is not marked, and no claim after it wins. The object is
-- marked after it, its type id, count and forwarding bit are as before, and the flip of the parity
-- unmarks it with no change to it.
pub claim_mark-once :
    (parity meta : ℕ)
    → meta < 2 ^ 64
    → IsParity parity
    → let r = claim_mark parity meta in
      (r.1 ≡ not (is_marked parity meta))
      × (is_marked parity r.0 ≡ true)
      × (claim_mark parity r.0 ≡ (r.0, false))
      × (is_marked (flip_mark_parity parity) r.0 ≡ false)
      × SameObject r.0 meta
claim_mark-once parity meta h p = elim (Bool-cases (is_marked parity meta)) [
  | inl e ↦
      rw (claim_mark-marked parity meta e, e)
        (
          refl,
          refl,
          claim_mark-marked parity meta e,
          flip-unmarks parity meta p e,
          SameObject-refl meta,
        )
  | inr e ↦
      let next = meta - meta / marked_bit % 2 * marked_bit + parity in
      let (on, same) = claimed parity meta h p e in
      rw (claim_mark-unmarked parity meta e, e)
        (refl, on, claim_mark-marked parity next on, flip-unmarks parity next p on, same)
]

-- An object is moved once: the first caller to forward an object that is in place wins, any later
-- one is handed the first one's address and changes nothing, and whoever follows the object gets
-- that address.
pub try_forward-once :
    (meta to later ptr : ℕ)
    → to < forwarded
    → is_forwarded_meta meta ≡ false
    → let r = try_forward meta to in
      (r.1 ≡ won)
      × (is_forwarded_meta r.0 ≡ true)
      × (try_forward r.0 later ≡ (r.0, lost to))
      × (follow_forwarding r.0 ptr ≡ to)
      × (follow_forwarding meta ptr ≡ ptr)
unfolding try_forward follow_forwarding is_forwarded_meta forwarding_meta forwarding_target
try_forward-once meta to later ptr h e =
    let whole : to % forwarded ≡ to = omega arith in
    let bit : (forwarded + to) / forwarded % 2 ≡ 1 = omega arith in
    let back : (forwarded + to) % forwarded ≡ to = omega arith in
    rw (e, whole, bit, back) (refl, refl, refl, refl, refl)

-- Up to the last multiple of 16 that a `u32` holds, `align_up` finds the least multiple of 16 that
-- is not below the size.
pub align_up-least :
    (size m : ℕ)
    → size ≤ 2 ^ 32 - 16
    → m % 16 ≡ 0
    → size ≤ m
    → (size ≤ align_up size) × (align_up size % 16 ≡ 0) × (align_up size ≤ m)
unfolding align_up
align_up-least size m h at le = (omega arith, omega arith, omega arith)
