-- ===== src/Runtime/Transfer/Codes.antt =====
-- For the codes that `intern` gives to pointers, crates/wsharp-runtime/src/transfer.rs.
use wsharp.Prelude.{
  ℕ, ◌+◌, ◌%◌, ◌^◌, ◌<◌, ◌≡◌, ◌≢◌, refl, ◌∙◌, ◌⊎◌, inl, inr, none, some, List, [], ◌∷◌, ◌++◌, arith,
  length, get_elem?, ◌==◌, ==→≡, ==→≢, Bool-cases, get_elem?-push_last, get_elem?-push_old,
  lt-length, option_cases,
}
use wsharp.Runtime.Memory.{object_at}
use wsharp.Runtime.Transfer.{Object, Memory, Walk, number_of, entry, intern}
use wsharp.Runtime.Transfer.Interned.{
  IsWalk, step, IsPrefix, same_lengths, number_of-queue, queue_le_memory,
}

-- The code of a pointer: 0 for null, else a place of the queue plus one.
abbrev pub IsCode : (ℕ → ℕ) → List ℕ → ℕ → ℕ → Type 0
IsCode resolve queue field code =
    ((field ≡ 0) × (code ≡ 0))
    ⊎ ((field ≢ 0) × (n : ℕ) × (get_elem? queue n ≡ some (resolve field)) × (code ≡ n + 1))

pub IsPrefix-IsCode :
    (resolve : ℕ → ℕ) (xs ys : List ℕ) (field code : ℕ)
    → IsPrefix xs ys
    → IsCode resolve xs field code
    → IsCode resolve ys field code
IsPrefix-IsCode resolve xs ys field code h (inl c) = inl c
IsPrefix-IsCode resolve xs ys field code h (inr (some_one, n, at, c)) =
    inr (some_one, n, h n (resolve field) at, c)

pub IsPrefix-push : (xs : List ℕ) (x : ℕ) → IsPrefix xs (xs ++ x ∷ [])
IsPrefix-push xs x n p e = get_elem?-push_old xs x n (lt-length xs n p e) ∙ e

-- What `intern` gives: a code for the field, and a walk that goes on.
pub record IsInterned (resolve : ℕ → ℕ) (mem : Memory) (w : Walk) (field : ℕ) (r : ℕ × Walk)
    : Type 0 where
  pub walk : IsWalk mem r.1.seen r.1.queue
  pub grows : IsPrefix w.queue r.1.queue
  pub coded : IsCode resolve r.1.queue field r.0
  pub small : r.0 < 2 ^ 64

-- A pointer to nothing, or to an object of the memory.
abbrev pub IsClosedField : (ℕ → ℕ) → Memory → ℕ → Type 0
IsClosedField resolve mem field =
    field ≢ 0 → (o : Object) × (object_at (resolve field) mem ≡ some o)

-- A pointer that has a number already, and one that has none.
entry-old :
    (resolve : ℕ → ℕ) (mem : Memory) (w : Walk) (field n : ℕ)
    → IsWalk mem w.seen w.queue
    → length mem < 2 ^ 32
    → field ≢ 0
    → number_of (resolve field) w.seen ≡ some n
    → IsInterned resolve mem w field (n + 1, w)
entry-old resolve mem w field n walk bound some_one e =
    let here = number_of-queue mem w.seen w.queue (resolve field) n walk e in
    let inside = lt-length w.queue n (resolve field) here in
    record {
      walk = walk;
      grows = λ k p f. f;
      coded = inr (some_one, n, here, refl);
      small = omega (arith, inside, queue_le_memory mem w.seen w.queue walk, bound);
    }

entry-new :
    (resolve : ℕ → ℕ) (mem : Memory) (w : Walk) (field : ℕ) (o : Object)
    → IsWalk mem w.seen w.queue
    → length mem < 2 ^ 32
    → field ≢ 0
    → object_at (resolve field) mem ≡ some o
    → number_of (resolve field) w.seen ≡ none
    → IsInterned resolve mem w field (entry (resolve field) w none)
entry-new resolve mem w field o walk bound some_one at e =
    let p = resolve field in
    let inside = queue_le_memory mem w.seen w.queue walk in
    let size = same_lengths mem w.seen w.queue walk in
    let whole : length w.seen % 2 ^ 32 ≡ length w.seen = omega (arith, inside, size, bound) in
    rw whole (record {
      walk = step p o w.seen w.queue walk at e;
      grows = IsPrefix-push w.queue p;
      coded = inr (some_one, length w.seen, rw size (get_elem?-push_last w.queue p), refl);
      small = omega (arith, inside, size, bound);
    })

-- For a memory of fewer than 2^32 objects, a table that numbers a queue of their addresses, each of which is there
-- once, and a field that is null or points to an object, `intern` keeps the table and the queue so, moves no address
-- that was queued, and gives 0 for null, else the place in the queue of what the field points to plus one. No sum wraps.
pub intern-IsInterned :
    (resolve : ℕ → ℕ) (mem : Memory) (w : Walk) (field : ℕ)
    → IsWalk mem w.seen w.queue
    → length mem < 2 ^ 32
    → IsClosedField resolve mem field
    → IsInterned resolve mem w field (intern resolve field w)
unfolding intern
intern-IsInterned resolve mem w field walk bound closed = elim (Bool-cases (field == 0)) [
  | inl null ↦ rw null (record {
    walk = walk;
    grows = λ k p f. f;
    coded = inl (==→≡ field 0 null, refl);
    small = omega arith;
  })
  | inr some_one ↦
      let there = ==→≢ field 0 some_one in
      let (o, at) = closed there in
      rw some_one (elim (option_cases (number_of (resolve field) w.seen)) [
        | inl (n, e) ↦ rw e (entry-old resolve mem w field n walk bound there e)
        | inr e ↦ rw e (entry-new resolve mem w field o walk bound there at e)
      ])
]
