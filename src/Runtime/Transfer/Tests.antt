-- ===== src/Runtime/Transfer/Tests.antt =====
-- Runs of copies of objects.
use wsharp.Prelude.{
  ℕ, zero, suc, ◌-◌, ◌^◌, ◌<◌, ◌≡◌, refl, sym, ◌∙◌, inl, inr, none, some, List, [], ◌∷◌, arith,
  length, ◌==◌, Bool-cases, codes, some_inj, subst, get_elem?,
}
use wsharp.Prelude.Run.{ok}
use wsharp.Runtime.Header.{header_size, align_up}
use wsharp.Runtime.Types.{TypeLayout, Registry, fixed, info, object_size_as, for_each_ptr_offset}
use wsharp.Runtime.Types.Visits.{of_fields}
use wsharp.Runtime.Memory.{object_at}
use wsharp.Runtime.Transfer.{
  Object, Wire, Memory, intern, encode_slots, encode_loop, encode, clear_slots, new_size,
  fill_object, link_slots, link_all,
}
use wsharp.Runtime.Transfer.Bytes.{word_at, put_word}
use wsharp.Runtime.Transfer.Slots.{AllWords}
use wsharp.Runtime.Transfer.Codes.{IsClosedField}
use wsharp.Runtime.Transfer.Make.{AllDistinct, IsFilledAt, IsFilled}
use wsharp.Runtime.Transfer.Sent.{IsSound}
use wsharp.Runtime.Transfer.Rounds.{AllSound, IsWireFrom, walk_from, encode-IsWireFrom}
use wsharp.Runtime.Transfer.RoundTrip.{IsCopy, link_all-IsCopy}

-- Two pointer fields, at 16 and 24.
abbrev node : TypeLayout
node = fixed (codes "Node") 32 (16 ∷ 24 ∷ [])

abbrev types : Registry
types = record { layouts = (0, node) ∷ []; published = some (some node ∷ []) }

abbrev two_words : ℕ → ℕ → List ℕ
two_words a b = a ∷ 0 ∷ 0 ∷ 0 ∷ 0 ∷ 0 ∷ 0 ∷ 0 ∷ b ∷ 0 ∷ 0 ∷ 0 ∷ 0 ∷ 0 ∷ 0 ∷ 0 ∷ []

abbrev node_of : ℕ → ℕ → Object
node_of a b = record { type_id = 0; aux = 0; body = two_words a b }

-- A cycle of two, the first of which points to the second twice.
abbrev cycle : Memory
cycle = (16, node_of 48 48) ∷ (48, node_of 16 0) ∷ []

abbrev stay : ℕ → ℕ
stay p = p

abbrev message : Wire
message = node_of 2 2 ∷ node_of 1 0 ∷ []

message_run : encode types stay cycle 16 ≡ ok message
unfolding encode encode_loop encode_slots intern info object_size_as for_each_ptr_offset word_at
    put_word
message_run = refl

null_run : encode types stay cycle 0 ≡ ok []
unfolding encode encode_loop intern
null_run = refl

-- The bytes of a new object before it is written to.
abbrev old_bytes : List ℕ
old_bytes = two_words 7 9

abbrev blank : Object
blank = node_of 0 0

first_fill : fill_object types old_bytes (node_of 2 2) ≡ ok blank
unfolding fill_object clear_slots info for_each_ptr_offset put_word
first_fill = refl

second_fill : fill_object types old_bytes (node_of 1 0) ≡ ok blank
unfolding fill_object clear_slots info for_each_ptr_offset put_word
second_fill = refl

-- Another memory, with the two new objects and one that stays.
abbrev filled_memory : Memory
filled_memory = (64, blank) ∷ (16, node_of 0 0) ∷ (96, blank) ∷ []

-- The copy is a cycle of two, the first of which points to the second twice.
linked_run :
    link_all types (64 ∷ 96 ∷ []) message (64 ∷ 96 ∷ []) filled_memory
    ≡ ok ((64, node_of 96 96) ∷ (16, node_of 0 0) ∷ (96, node_of 64 0) ∷ [])
unfolding link_all link_slots info for_each_ptr_offset word_at put_word
linked_run = refl

node_of-IsSound :
    (a b : ℕ)
    → AllWords (λ s field. IsClosedField stay cycle field) (16 ∷ 24 ∷ []) (two_words a b)
    → IsSound types stay cycle (node_of a b)
unfolding info object_size_as for_each_ptr_offset
node_of-IsSound a b closed = record {
  layout = node;
  known = refl;
  shape = of_fields (omega arith) refl (omega arith, omega arith, (omega arith, omega arith, tt));
  word = omega arith;
  room = omega arith;
  size = 32;
  sized = refl;
  header = omega arith;
  small = omega arith;
  whole = omega arith;
  apart = ((inl (omega arith), tt), (tt, tt));
  closed = closed;
}

first-IsSound : IsSound types stay cycle (node_of 48 48)
unfolding word_at
first-IsSound =
    node_of-IsSound 48 48 ((λ h. (node_of 16 0, refl)), ((λ h. (node_of 16 0, refl)), tt))

second-IsSound : IsSound types stay cycle (node_of 16 0)
unfolding word_at
second-IsSound = node_of-IsSound 16 0 ((λ h. (node_of 48 48, refl)), ((λ h. absurd (h refl)), tt))

cycle-AllSound : AllSound types stay cycle
cycle-AllSound p o e = elim (Bool-cases (16 == p)) [
  | inl hit ↦
      subst (IsSound types stay cycle) (some_inj (node_of 48 48) o (sym (rw hit refl) ∙ e))
        first-IsSound
  | inr miss ↦ elim (Bool-cases (48 == p)) [
    | inl hit ↦
        subst (IsSound types stay cycle) (some_inj (node_of 16 0) o (sym (rw (miss, hit) refl) ∙ e))
          second-IsSound
    | inr other ↦
        let none_there : object_at p cycle ≡ none = rw (miss, other) refl in
        let clash : none ≡ some o = sym none_there ∙ e in absurd (cc)
  ]
]

cycle_small : length cycle < 2 ^ 32
cycle_small = omega arith

size_of_new : length old_bytes ≡ new_size (node_of 2 2) - header_size
unfolding align_up
size_of_new = refl

filled_memory-IsFilledAt :
    (k p : ℕ) (x : Object)
    → get_elem? (64 ∷ 96 ∷ []) k ≡ some p
    → get_elem? message k ≡ some x
    → IsFilledAt types filled_memory p x
filled_memory-IsFilledAt zero p x e f =
    let at = some_inj 64 p e in
    let is = some_inj (node_of 2 2) x f in
    rw (← at, ← is)
      (record {
        room = old_bytes;
        size = size_of_new;
        object = blank;
        fills = first_fill;
        at = refl;
      })
filled_memory-IsFilledAt (suc zero) p x e f =
    let at = some_inj 96 p e in
    let is = some_inj (node_of 1 0) x f in
    rw (← at, ← is)
      (record {
        room = old_bytes;
        size = size_of_new;
        object = blank;
        fills = second_fill;
        at = refl;
      })
filled_memory-IsFilledAt (suc (suc k)) p x e f = absurd (cc)

two_apart :
    (p : ℕ) {A : Type 0}
    → get_elem? (64 ∷ 96 ∷ []) 0 ≡ some p
    → get_elem? (64 ∷ 96 ∷ []) 1 ≡ some p
    → A
two_apart p e f = absurd (omega (arith, some_inj 64 p e, some_inj 96 p f))

two_distinct : AllDistinct (64 ∷ 96 ∷ [])
two_distinct zero zero p e f = refl
two_distinct zero (suc zero) p e f = two_apart p e f
two_distinct (suc zero) zero p e f = two_apart p f e
two_distinct (suc zero) (suc zero) p e f = refl
two_distinct zero (suc (suc k)) p e f = absurd (cc)
two_distinct (suc zero) (suc (suc k)) p e f = absurd (cc)
two_distinct (suc (suc j)) k p e f = absurd (cc)

two_words_bound : (k p : ℕ) → get_elem? (64 ∷ 96 ∷ []) k ≡ some p → p < 2 ^ 64
two_words_bound zero p e = let at = some_inj 64 p e in omega (arith, at)
two_words_bound (suc zero) p e = let at = some_inj 96 p e in omega (arith, at)
two_words_bound (suc (suc k)) p e = absurd (cc)

filled_memory-IsFilled : IsFilled types message (64 ∷ 96 ∷ []) filled_memory
filled_memory-IsFilled = record {
  width = refl;
  distinct = two_distinct;
  words = two_words_bound;
  filled = filled_memory-IsFilledAt;
}

link_all-IsCopy_example :
    IsCopy types stay cycle cycle-AllSound 16
      (64 ∷ 96 ∷ [])
      filled_memory
      (link_all types (64 ∷ 96 ∷ []) message (64 ∷ 96 ∷ []) filled_memory)
link_all-IsCopy_example =
    link_all-IsCopy types stay cycle cycle-AllSound 16 (node_of 48 48) cycle_small
      (λ e. omega (arith, e)) refl message message_run (64 ∷ 96 ∷ []) filled_memory
      filled_memory-IsFilled

encode-IsWireFrom_example :
    IsWireFrom types stay cycle cycle-AllSound (walk_from 48) 0 (encode types stay cycle 48)
encode-IsWireFrom_example =
    encode-IsWireFrom types stay cycle cycle-AllSound 48 (node_of 16 0) cycle_small
      (λ e. omega (arith, e)) refl
