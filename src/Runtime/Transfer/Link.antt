-- ===== src/Runtime/Transfer/Link.antt =====
-- For the second pass of `decode` over one object, crates/wsharp-runtime/src/transfer.rs.
use wsharp.Prelude.{
  ℕ, zero, suc, ◌+◌, ◌-◌, ◌^◌, ◌≤◌, ◌<◌, ◌≡◌, refl, ◌∙◌, ◌⊎◌, inl, inr, some, List, [], ◌∷◌, arith,
  length, get_elem?, get_elem?-lt,
}
use wsharp.Prelude.Run.{ok}
use wsharp.Runtime.Header.{header_size}
use wsharp.Runtime.Transfer.{Object, target, link_slots, linked}
use wsharp.Runtime.Transfer.Bytes.{word_at, put_word, length-put_word}
use wsharp.Runtime.Transfer.Slots.{
  IsOutside, AllApart, AllWords, Filled, Filled-step, read_word-ok, write_word-ok,
}
use wsharp.Runtime.Transfer.Make.{IsReadable, IsMade, slots_of}
use wsharp.Runtime.Types.{Registry, info}
use wsharp.Runtime.Types.Visits.{AllWithin}

-- What the code of a pointer stands for among the new addresses.
abbrev pub IsTarget : List ℕ → ℕ → ℕ → Type 0
IsTarget made code p =
    ((code ≡ 0) × (p ≡ 0)) ⊎ ((n : ℕ) × (code ≡ n + 1) × (get_elem? made n ≡ some p))

abbrev pub AllWord : List ℕ → Type 0
AllWord made = (k p : ℕ) → get_elem? made k ≡ some p → p < 2 ^ 64

target-ok :
    (made : List ℕ) (code : ℕ)
    → AllWord made
    → code ≤ length made
    → (p : ℕ) × (target made code ≡ ok p) × IsTarget made code p × (p < 2 ^ 64)
target-ok made zero small h = (0, refl, inl (refl, refl), omega arith)
target-ok made (suc n) small h =
    let (p, at) = get_elem?-lt made n (omega (arith, h)) in
    (p, rw at refl, inr (n, omega arith, at), small n p at)

abbrev pub IsLinkedWord : List ℕ → List ℕ → ℕ → ℕ → Type 0
IsLinkedWord made from s v = IsTarget made (word_at from (s - header_size) 8) v

link_slots-Filled :
    (made : List ℕ) (n : ℕ) (from slots body : List ℕ)
    → AllWord made
    → AllWithin header_size n slots
    → AllApart slots
    → n ≤ header_size + length from
    → n ≤ header_size + length body
    → AllWords (λ s c. c ≤ length made) slots from
    → (body' : List ℕ) × (link_slots made from slots body ≡ ok body')
      × Filled (IsLinkedWord made from) slots body body'
unfolding link_slots
link_slots-Filled made n from [] body small h a room room' codes =
    (body, refl, record { same_length = refl; others = λ i o. refl; words = tt })
link_slots-Filled made n from (s ∷ ss) body small (low, high, h) (clear, a) room room' (c, codes) =
    let (v, e, is, word) = target-ok made (word_at from (s - header_size) 8) small c in
    let body1 = put_word body (s - header_size) 8 v in
    let room1 : n ≤ header_size + length body1 =
      omega (arith, room', length-put_word 8 (s - header_size) v body) in
    let (body', f, filled) = link_slots-Filled made n from ss body1 small h a room room1 codes in
    let fits : s + 8 ≤ header_size + length body = omega (arith, high, room') in
    let reads = read_word-ok from s low (omega (arith, high, room)) in
    (
      body',
      rw (reads, e, write_word-ok body s v low fits) f,
      Filled-step (IsLinkedWord made from) s v ss body body' low fits clear word is filled,
    )

-- A finished object.
pub record IsLinked (slots made : List ℕ) (x final : Object) : Type 0 where
  pub same_type : final.type_id ≡ x.type_id
  pub same_aux : final.aux ≡ x.aux
  pub room : length x.body ≤ length final.body
  pub bytes :
      (i : ℕ) → i < length x.body → IsOutside i slots → get_elem? final.body i ≡ get_elem? x.body i
  pub targets : AllWords (IsLinkedWord made x.body) slots final.body

pub linked-IsLinked :
    (types : Registry) (made : List ℕ) (x new : Object) (s : IsReadable types (length made) x)
    → AllWord made
    → IsMade (slots_of types (length made) x s) x new
    → (final : Object) × (linked types made x new (info x.type_id types) ≡ ok final)
      × IsLinked (slots_of types (length made) x s) made x final
linked-IsLinked types made x new s small m =
    let slots = slots_of types (length made) x s in
    let (body', e, f) =
      link_slots-Filled made (header_size + length x.body) x.body slots new.body small s.within
        s.apart (omega arith) (omega (arith, m.room)) s.codes in
    (
      record new { body = body' },
      rw (s.known, m.same_aux, e) refl,
      record {
        same_type = m.same_type;
        same_aux = m.same_aux;
        room = omega (arith, m.room, f.same_length);
        bytes = λ i h out. f.others i out ∙ m.bytes i h out;
        targets = f.words;
      },
    )
