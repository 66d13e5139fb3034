-- ===== src/Runtime/Transfer/Slots.antt =====
-- For the loops over the pointer slots of an object in crates/wsharp-runtime/src/transfer.rs.
use wsharp.Prelude.{
  ℕ, ◌+◌, ◌-◌, ◌^◌, ◌≤◌, ◌<◌, ◌≡◌, refl, ◌∙◌, ◌⊎◌, inl, inr, List, [], ◌∷◌, arith, length,
  get_elem?, true, leb,
}
use wsharp.Prelude.Run.{ok}
use wsharp.Runtime.Header.{header_size}
use wsharp.Runtime.Transfer.{read_word, write_word, clear_slots}
use wsharp.Runtime.Transfer.Bytes.{
  word_at, put_word, length-put_word, get_elem?-put_word, word_at_ext, word_at-put_word,
}
use wsharp.Runtime.Types.Visits.{AllWithin}

-- The byte `i` after the header is in none of the slots.
abbrev pub IsOutside : ℕ → List ℕ → Type 0
IsOutside i [] = Unit
IsOutside i (s ∷ ss) = ((header_size + i < s) ⊎ (s + 8 ≤ header_size + i)) × IsOutside i ss

-- A slot that overlaps none of the others.
abbrev pub IsClear : ℕ → List ℕ → Type 0
IsClear s [] = Unit
IsClear s (t ∷ ts) = ((s + 8 ≤ t) ⊎ (t + 8 ≤ s)) × IsClear s ts

abbrev pub AllApart : List ℕ → Type 0
AllApart [] = Unit
AllApart (s ∷ ss) = IsClear s ss × AllApart ss

-- The word of each slot has a property, that may depend on the slot.
abbrev pub AllWords : (ℕ → ℕ → Type 0) → List ℕ → List ℕ → Type 0
AllWords P [] body = Unit
AllWords P (s ∷ ss) body = P s (word_at body (s - header_size) 8) × AllWords P ss body

-- A body whose slots were written, and nothing else.
pub record Filled (P : ℕ → ℕ → Type 0) (slots old new : List ℕ) : Type 0 where
  pub same_length : length new ≡ length old
  pub others : (i : ℕ) → IsOutside i slots → get_elem? new i ≡ get_elem? old i
  pub words : AllWords P slots new

IsClear-IsOutside :
    (s i : ℕ) (slots : List ℕ)
    → IsClear s slots
    → s ≤ header_size + i
    → header_size + i < s + 8
    → IsOutside i slots
IsClear-IsOutside s i [] h low high = tt
IsClear-IsOutside s i (t ∷ ts) (h, hs) low high = (one h, IsClear-IsOutside s i ts hs low high)
  where
    one : (s + 8 ≤ t) ⊎ (t + 8 ≤ s) → (header_size + i < t) ⊎ (t + 8 ≤ header_size + i)
    one (inl k) = inl (omega (arith, k, low, high))
    one (inr k) = inr (omega (arith, k, low, high))

outside_slot :
    (s i : ℕ)
    → header_size ≤ s
    → (header_size + i < s) ⊎ (s + 8 ≤ header_size + i)
    → (i < s - header_size) ⊎ (s - header_size + 8 ≤ i)
outside_slot s i low (inl k) = inl (omega (arith, k, low))
outside_slot s i low (inr k) = inr (omega (arith, k, low))

-- A write to one slot, then to the others.
pub Filled-step :
    (P : ℕ → ℕ → Type 0) (s v : ℕ) (slots old new : List ℕ)
    → header_size ≤ s
    → s + 8 ≤ header_size + length old
    → IsClear s slots
    → v < 2 ^ 64
    → P s v
    → Filled P slots (put_word old (s - header_size) 8 v) new
    → Filled P (s ∷ slots) old new
Filled-step P s v slots old new low high clear small p rest =
    let kept = word_at_ext 8 (s - header_size) new (put_word old (s - header_size) 8 v) (λ i a b.
      rest.others i
        (IsClear-IsOutside s i slots clear (omega (arith, a, low)) (omega (arith, b, low)))) in
    let same = kept ∙ word_at-put_word (s - header_size) v old (omega (arith, low, high)) small in
    record {
      same_length = rest.same_length ∙ length-put_word 8 (s - header_size) v old;
      others = λ i (h, hs).
          rest.others i hs
          ∙ get_elem?-put_word 8 (s - header_size) v i old (outside_slot s i low h);
      words = (rw same p, rest.words);
    }

pub read_word-ok :
    (body : List ℕ) (s : ℕ)
    → header_size ≤ s
    → s + 8 ≤ header_size + length body
    → read_word body (s - header_size) ≡ ok (word_at body (s - header_size) 8)
read_word-ok body s low high =
    let fits : leb (s - header_size + 8) (length body) ≡ true = ground arith in rw fits refl

pub write_word-ok :
    (body : List ℕ) (s v : ℕ)
    → header_size ≤ s
    → s + 8 ≤ header_size + length body
    → write_word body (s - header_size) v ≡ ok (put_word body (s - header_size) 8 v)
write_word-ok body s v low high =
    let fits : leb (s - header_size + 8) (length body) ≡ true = ground arith in rw fits refl

-- Nothing is asked of a word.
abbrev pub AnyWord : ℕ → ℕ → Type 0
AnyWord s v = Unit

pub clear_slots-Filled :
    (slots : List ℕ) (n : ℕ) (body : List ℕ)
    → AllWithin header_size n slots
    → AllApart slots
    → n ≤ header_size + length body
    → (body' : List ℕ) × (clear_slots slots body ≡ ok body') × Filled AnyWord slots body body'
unfolding clear_slots
clear_slots-Filled [] n body h a room =
    (body, refl, record { same_length = refl; others = λ i o. refl; words = tt })
clear_slots-Filled (s ∷ ss) n body (low, high, h) (clear, a) room =
    let body1 = put_word body (s - header_size) 8 0 in
    let room1 : n ≤ header_size + length body1 =
      omega (arith, room, length-put_word 8 (s - header_size) 0 body) in
    let (body', e, f) = clear_slots-Filled ss n body1 h a room1 in
    let fits : s + 8 ≤ header_size + length body = omega (arith, high, room) in
    (
      body',
      rw (write_word-ok body s 0 low fits) e,
      Filled-step AnyWord s 0 ss body body' low fits clear (omega arith) tt f,
    )
