-- ===== src/Runtime/Transfer/Make.antt =====
-- For the first pass of `decode`, crates/wsharp-runtime/src/transfer.rs.
use wsharp.Prelude.{
  ℕ, zero, suc, ◌+◌, ◌-◌, ◌%◌, ◌^◌, ◌≤◌, ◌<◌, ◌≡◌, refl, sym, ◌∙◌, ap, some, List, [], ◌∷◌, ◌++◌,
  arith, length, get_elem?, max, true, leb, drop, length-append,
}
use wsharp.Prelude.Run.{ok}
use wsharp.Runtime.Header.{header_size, align_up}
use wsharp.Runtime.Memory.{object_at}
use wsharp.Runtime.Transfer.{Object, Wire, Memory, copy_into, new_size, fill_object}
use wsharp.Runtime.Transfer.Slots.{IsOutside, AllApart, AllWords, clear_slots-Filled}
use wsharp.Runtime.Types.{TypeInfo, Registry, info, for_each_ptr_offset}
use wsharp.Runtime.Types.Visits.{AllWithin}

-- An object of a message of `count` objects.
pub record IsReadable (types : Registry) (count : ℕ) (x : Object) : Type 0 where
  pub layout : TypeInfo
  pub known : info x.type_id types ≡ some layout
  pub within :
      AllWithin header_size (header_size + length x.body) (for_each_ptr_offset x.aux layout)
  pub apart : AllApart (for_each_ptr_offset x.aux layout)
  pub small : header_size + length x.body + 16 ≤ 2 ^ 32
  pub codes : AllWords (λ s c. c ≤ count) (for_each_ptr_offset x.aux layout) x.body

-- A new object, before its slots are written.
pub record IsMade (slots : List ℕ) (x new : Object) : Type 0 where
  pub same_type : new.type_id ≡ x.type_id
  pub same_aux : new.aux ≡ x.aux
  pub room : length x.body ≤ length new.body
  pub bytes :
      (i : ℕ) → i < length x.body → IsOutside i slots → get_elem? new.body i ≡ get_elem? x.body i

get_elem?-append :
    (xs ys : List ℕ) (i : ℕ) → i < length xs → get_elem? (xs ++ ys) i ≡ get_elem? xs i
get_elem?-append [] ys i h = absurd (omega arith)
get_elem?-append (x ∷ xs) ys zero h = refl
get_elem?-append (x ∷ xs) ys (suc i) h = get_elem?-append xs ys i (omega arith)

align_up_room :
    (n : ℕ)
    → header_size + n + 16 ≤ 2 ^ 32
    → n ≤ align_up (max ((header_size + n) % 2 ^ 32) header_size) - header_size
unfolding align_up
align_up_room n h =
    let small : (header_size + n) % 2 ^ 32 ≡ header_size + n = omega (arith, h) in
    rw small (omega (arith, h))

copy_into-ok :
    (room body : List ℕ)
    → length body ≤ length room
    → copy_into room body ≡ ok (body ++ drop (length body) room)
copy_into-ok room body h =
    let fits : leb (length body) (length room) ≡ true = ground arith in rw fits refl

abbrev pub slots_of :
    (types : Registry) (count : ℕ) (x : Object) → IsReadable types count x → List ℕ
slots_of types count x r = for_each_ptr_offset x.aux r.layout

-- Whatever the bytes of a new object of the right size are, the first pass writes an object of the message into it.
pub fill_object-IsMade :
    (types : Registry) (count : ℕ) (x : Object) (s : IsReadable types count x) (room : List ℕ)
    → length room ≡ new_size x - header_size
    → (new : Object) × (fill_object types room x ≡ ok new) × IsMade (slots_of types count x s) x new
unfolding fill_object
fill_object-IsMade types count x s room size =
    let n = length x.body in
    let fits : n ≤ length room = omega (arith, align_up_room n s.small, size) in
    let rest = drop n room in
    let body = x.body ++ rest in
    let whole = length-append x.body rest in
    let (body', e, f) =
      clear_slots-Filled (slots_of types count x s) (header_size + n) body s.within s.apart
        (omega (arith, whole)) in
    (
      record { type_id = x.type_id; aux = x.aux; body = body' },
      rw (copy_into-ok room x.body fits, s.known, e) refl,
      record {
        same_type = refl;
        same_aux = refl;
        room = omega (arith, f.same_length, whole);
        bytes = λ i h out. f.others i out ∙ get_elem?-append x.body rest i h;
      },
    )

-- No address is there twice.
abbrev pub AllDistinct : List ℕ → Type 0
AllDistinct xs = (j k p : ℕ) → get_elem? xs j ≡ some p → get_elem? xs k ≡ some p → j ≡ k

-- A new object for one of a message.
pub record IsMadeAt (types : Registry) (count : ℕ) (after : Memory) (p : ℕ) (x : Object)
    : Type 0 where
  pub readable : IsReadable types count x
  pub object : Object
  pub at : object_at p after ≡ some object
  pub made : IsMade (slots_of types count x readable) x object

-- An address of a new object, as the first pass leaves it.
pub record IsFilledAt (types : Registry) (now : Memory) (p : ℕ) (x : Object) : Type 0 where
  pub room : List ℕ
  pub size : length room ≡ new_size x - header_size
  pub object : Object
  pub fills : fill_object types room x ≡ ok object
  pub at : object_at p now ≡ some object

-- What the second pass begins with: for each object of the message an address of its own, at which there is the new
-- object that the first pass filled.
pub record IsFilled (types : Registry) (os : Wire) (made : List ℕ) (now : Memory) : Type 0 where
  pub width : length made ≡ length os
  pub distinct : AllDistinct made
  pub words : (k p : ℕ) → get_elem? made k ≡ some p → p < 2 ^ 64
  pub filled :
      (k p : ℕ) (x : Object)
      → get_elem? made k ≡ some p
      → get_elem? os k ≡ some x
      → IsFilledAt types now p x

pub IsFilledAt-IsMadeAt :
    (types : Registry) (count : ℕ) (now : Memory) (p : ℕ) (x : Object)
    → IsReadable types count x
    → IsFilledAt types now p x
    → IsMadeAt types count now p x
IsFilledAt-IsMadeAt types count now p x s f =
    let (new, e, made) = fill_object-IsMade types count x s f.room f.size in
    let same : new ≡ f.object = cc (e, f.fills) in
    record { readable = s; object = new; at = f.at ∙ ap some (sym same); made = made }
