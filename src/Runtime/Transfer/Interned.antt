-- ===== src/Runtime/Transfer/Interned.antt =====
-- For `intern` and the table `seen` of `encode`, crates/wsharp-runtime/src/transfer.rs.
use wsharp.Prelude.{
  ℕ, zero, suc, ◌+◌, ◌≤◌, ◌<◌, ◌≡◌, refl, sym, ◌∙◌, ◌⊎◌, inl, inr, Option, none, some, List, [],
  ◌∷◌, ◌++◌, arith, length, get_elem?, true, ◌==◌, ==→≡, Bool-cases, length-append,
  get_elem?-push_last, get_elem?-push_old, push_cases, lt-length,
}
use wsharp.Runtime.Memory.{object_at}
use wsharp.Runtime.Transfer.{Object, Memory, number_of}

-- The table numbers the addresses of the queue, each of which has an object and is there once.
pub data IsWalk (mem : Memory) : List (ℕ × ℕ) → List ℕ → Type 0 where
  start : IsWalk mem [] []
  step :
      (p : ℕ) (o : Object) (seen : List (ℕ × ℕ)) (queue : List ℕ)
      → IsWalk mem seen queue
      → object_at p mem ≡ some o
      → number_of p seen ≡ none
      → IsWalk mem ((p, length seen) ∷ seen) (queue ++ p ∷ [])

-- What is numbered in one list has that number in the other.
abbrev pub IsPrefix : List ℕ → List ℕ → Type 0
IsPrefix xs ys = (n p : ℕ) → get_elem? xs n ≡ some p → get_elem? ys n ≡ some p

pub same_lengths :
    (mem : Memory) (seen : List (ℕ × ℕ)) (queue : List ℕ)
    → IsWalk mem seen queue
    → length seen ≡ length queue
same_lengths mem [] [] start = refl
same_lengths mem _ _ (step p o seen queue w at new) =
    omega (arith, same_lengths mem seen queue w, length-append queue (p ∷ []))

-- A number of the table is the place in the queue.
pub number_of-queue :
    (mem : Memory) (seen : List (ℕ × ℕ)) (queue : List ℕ) (q n : ℕ)
    → IsWalk mem seen queue
    → number_of q seen ≡ some n
    → get_elem? queue n ≡ some q
number_of-queue mem [] [] q n start e = absurd (cc)
number_of-queue mem _ _ q n (step p o seen queue w at new) e = elim (Bool-cases (p == q)) [
  | inl hit ↦
      let same : p ≡ q = ==→≡ p q hit in
      let here : length queue ≡ n =
        let f : some (length seen) ≡ some n = sym (rw hit refl) ∙ e in
        sym (same_lengths mem seen queue w) ∙ (ground arith) in
      rw (sym here, sym same) (get_elem?-push_last queue p)
  | inr miss ↦
      let old = number_of-queue mem seen queue q n w (sym (rw miss refl) ∙ e) in
      get_elem?-push_old queue p n (lt-length queue n q old) ∙ old
]

push_place :
    (xs : List ℕ) (x y n : ℕ)
    → get_elem? (xs ++ x ∷ []) n ≡ some y
    → (get_elem? xs n ≡ some y) ⊎ ((n ≡ length xs) × (y ≡ x))
push_place [] x y zero e = inr (omega arith, ground arith)
push_place [] x y (suc n) e = absurd (cc)
push_place (z ∷ xs) x y zero e = inl e
push_place (z ∷ xs) x y (suc n) e = elim (push_place xs x y n e) [
  | inl old ↦ inl old
  | inr (here, same) ↦ inr (omega (arith, here), same)
]

-- A place of the queue is the number of the table.
pub queue-number_of :
    (mem : Memory) (seen : List (ℕ × ℕ)) (queue : List ℕ) (q n : ℕ)
    → IsWalk mem seen queue
    → get_elem? queue n ≡ some q
    → number_of q seen ≡ some n
queue-number_of mem [] [] q n start e = absurd (cc)
queue-number_of mem _ _ q n (step p o seen queue w at new) e = elim (push_place queue p q n e) [
  | inl old ↦
      let before = queue-number_of mem seen queue q n w old in
      elim (Bool-cases (p == q)) [
        | inl hit ↦
            let none_there : number_of q seen ≡ none = rw (sym (==→≡ p q hit)) new in
            let both : some n ≡ none = sym before ∙ none_there in absurd (cc)
        | inr miss ↦ rw miss before
      ]
  | inr (here, same) ↦
      let hit : (p == q) ≡ true = ground arith in
      let size = same_lengths mem seen queue w in rw (hit, size, here) refl
]

pub queue-object_at :
    (mem : Memory) (seen : List (ℕ × ℕ)) (queue : List ℕ) (q n : ℕ)
    → IsWalk mem seen queue
    → get_elem? queue n ≡ some q
    → (o : Object) × (object_at q mem ≡ some o)
queue-object_at mem [] [] q n start e = absurd (cc)
queue-object_at mem _ _ q n (step p o seen queue w at new) e = elim (push_cases queue p q n e) [
  | inl old ↦ queue-object_at mem seen queue q n w old
  | inr same ↦ (o, rw same at)
]

abbrev one_if_none : Option ℕ → ℕ
one_if_none none = 1
one_if_none (some n) = 0

-- The entries of the memory whose address has no number.
abbrev unseen : List (ℕ × ℕ) → Memory → ℕ
unseen seen [] = 0
unseen seen ((q, o) ∷ rest) = one_if_none (number_of q seen) + unseen seen rest

one_if_none_le : (o : Option ℕ) → one_if_none o ≤ 1
one_if_none_le none = omega arith
one_if_none_le (some n) = omega arith

one_more :
    (q p n : ℕ) (seen : List (ℕ × ℕ))
    → one_if_none (number_of q ((p, n) ∷ seen)) ≤ one_if_none (number_of q seen)
one_more q p n seen = elim (Bool-cases (p == q)) [
  | inl hit ↦ rw hit (omega arith)
  | inr miss ↦ rw miss (omega arith)
]

unseen_le :
    (seen : List (ℕ × ℕ)) (p n : ℕ) (mem : Memory) → unseen ((p, n) ∷ seen) mem ≤ unseen seen mem
unseen_le seen p n [] = omega arith
unseen_le seen p n ((q, o) ∷ rest) = omega (arith, one_more q p n seen, unseen_le seen p n rest)

-- A new number is one fewer without.
unseen_lt :
    (seen : List (ℕ × ℕ)) (p n : ℕ) (o : Object) (mem : Memory)
    → object_at p mem ≡ some o
    → number_of p seen ≡ none
    → unseen ((p, n) ∷ seen) mem < unseen seen mem
unseen_lt seen p n o [] at new = absurd (cc)
unseen_lt seen p n o ((q, o') ∷ rest) at new = elim (Bool-cases (q == p)) [
  | inl hit ↦
      let same : q ≡ p = ==→≡ q p hit in
      let was : one_if_none (number_of q seen) ≡ 1 = rw (same, new) refl in
      let back : (p == q) ≡ true = ground arith in
      let is : one_if_none (number_of q ((p, n) ∷ seen)) ≡ 0 = rw back refl in
      omega (arith, was, is, unseen_le seen p n rest)
  | inr miss ↦
      let later = unseen_lt seen p n o rest (sym (rw miss refl) ∙ at) new in
      omega (arith, later, one_more q p n seen)
]

unseen_nil : (mem : Memory) → unseen [] mem ≡ length mem
unseen_nil [] = refl
unseen_nil ((q, o) ∷ rest) = omega (arith, unseen_nil rest)

queue-unseen :
    (mem : Memory) (seen : List (ℕ × ℕ)) (queue : List ℕ)
    → IsWalk mem seen queue
    → unseen seen mem + length queue ≤ length mem
queue-unseen mem [] [] start = omega (arith, unseen_nil mem)
queue-unseen mem _ _ (step p o seen queue w at new) =
    let fewer = unseen_lt seen p (length seen) o mem at new in
    omega (arith, queue-unseen mem seen queue w, fewer, length-append queue (p ∷ []))

-- The queue never holds more addresses than the memory has objects.
pub queue_le_memory :
    (mem : Memory) (seen : List (ℕ × ℕ)) (queue : List ℕ)
    → IsWalk mem seen queue
    → length queue ≤ length mem
queue_le_memory mem seen queue w = omega (arith, queue-unseen mem seen queue w)
