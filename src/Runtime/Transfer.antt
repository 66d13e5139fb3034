-- ===== src/Runtime/Transfer.antt =====
-- Copies of object graphs, crates/wsharp-runtime/src/transfer.rs. The memory of a worker is a map from
-- addresses to objects, as a list of its keys and values; an object is its type id, its `aux` word and the
-- bytes after its header. An access past the end of an object is a panic. `resolve` says where the object at
-- an address lives now: it is `ws_resolve` while a trace moves objects, else the same address. Of `decode` there
-- is what it does between its calls of `ws_alloc`, which may run a collection: what the first pass writes into
-- one new object, and the second pass. The write barrier's log is no part of the memory.
pub mod Bytes
pub mod Slots
pub mod Interned
pub mod Codes
pub mod Sent
pub mod Encode
pub mod Rounds
pub mod Make
pub mod Link
pub mod Decode
pub mod Twins
pub mod RoundTrip
mod Tests
use wsharp.Prelude.{
  ℕ, zero, suc, ◌+◌, ◌-◌, ◌*◌, ◌/◌, ◌%◌, ◌^◌, max, Bool, true, false, Option, none, some, List, [],
  ◌∷◌, ◌++◌, ◌==◌, leb, if◌then◌else◌, length, get_elem?, set, take, drop,
}
use wsharp.Prelude.Run.{Run, ok, panic, out_of_fuel, then_run}
use wsharp.Runtime.Memory.{object_at, put_object}
use wsharp.Runtime.Header.{header_size, align_up}
use wsharp.Runtime.Types.{
  TypeInfo, Registry, info, has_variable_size, object_size_as, for_each_ptr_offset,
}
use wsharp.Runtime.Transfer.Bytes.{word_at, put_word}

-- An object of a memory, or of a message: there a pointer slot holds an index plus one, and 0 is null.
pub record Object : Type 0 where
  pub type_id : ℕ
  pub aux : ℕ
  pub body : List ℕ

abbrev pub Wire : Type 0
Wire = List Object

-- `Wire::objects` and `Wire::bytes`.
unfoldable pub objects : Wire → ℕ
objects w = length w

unfoldable pub bytes : Wire → ℕ
bytes [] = 0
bytes (o ∷ os) = length o.body + bytes os

abbrev pub Memory : Type 0
Memory = List (ℕ × Object)

abbrev pub or_panic {ℓ} : {A : Type ℓ} → Option A → Run A
or_panic none = panic
or_panic (some a) = ok a

-- The eight bytes from `at` on.
abbrev pub read_word : List ℕ → ℕ → Run ℕ
read_word body at = if leb (at + 8) (length body) then ok (word_at body at 8) else panic

abbrev pub write_word : List ℕ → ℕ → ℕ → Run (List ℕ)
write_word body at v = if leb (at + 8) (length body) then ok (put_word body at 8 v) else panic

-- The addresses that were seen, with their numbers, and those that were queued, in their order.
pub record Walk : Type 0 where
  pub seen : List (ℕ × ℕ)
  pub queue : List ℕ

abbrev pub number_of : ℕ → List (ℕ × ℕ) → Option ℕ
number_of p [] = none
number_of p ((q, n) ∷ rest) = let later = number_of p rest in if q == p then some n else later

-- `entry`: `next` is `seen.len() as u32`.
abbrev pub entry : ℕ → Walk → Option ℕ → ℕ × Walk
entry p w (some n) = (n + 1, w)
entry p w none =
    let next = length w.seen % 2 ^ 32 in
    (next + 1, record { seen = (p, next) ∷ w.seen; queue = w.queue ++ p ∷ [] })

unfoldable pub intern : (ℕ → ℕ) → ℕ → Walk → ℕ × Walk
intern resolve p w = if p == 0 then (0, w) else entry (resolve p) w (number_of (resolve p) w.seen)

-- The loop over the slots of the object whose bytes are `from`.
unfoldable pub encode_slots : (ℕ → ℕ) → List ℕ → List ℕ → List ℕ → Walk → Run (List ℕ × Walk)
encode_slots resolve from [] body w = ok (body, w)
encode_slots resolve from (offset ∷ slots) body w =
    then_run (read_word from (offset - header_size)) (λ field.
      let (index, w') = intern resolve field w in
      then_run (write_word body (offset - header_size) index)
        (λ body'. encode_slots resolve from slots body' w'))

-- `unwrap_or`.
abbrev pub unwrap_or : ℕ → Option ℕ → ℕ
unwrap_or d none = d
unwrap_or d (some n) = n

-- The bytes of a body, as many as its type says.
abbrev pub copy_body : ℕ → List ℕ → Run (List ℕ)
copy_body n body = if leb n (length body) then ok (take n body) else panic

-- A null in each slot.
unfoldable pub clear_slots : List ℕ → List ℕ → Run (List ℕ)
clear_slots [] body = ok body
clear_slots (offset ∷ slots) body =
    then_run (write_word body (offset - header_size) 0) (clear_slots slots)

-- A copy to the start of the bytes of a new object; past their end it is taken for a panic.
abbrev pub copy_into : List ℕ → List ℕ → Run (List ℕ)
copy_into room body =
    if leb (length body) (length room) then ok (body ++ drop (length body) room) else panic

abbrev pub target : List ℕ → ℕ → Run ℕ
target made zero = ok 0
target made (suc n) = or_panic (get_elem? made n)

-- The loop over the slots of a new object, with the bytes of the message.
unfoldable pub link_slots : List ℕ → List ℕ → List ℕ → List ℕ → Run (List ℕ)
link_slots made from [] body = ok body
link_slots made from (offset ∷ slots) body =
    then_run (read_word from (offset - header_size)) (λ index.
      then_run (target made index)
        (λ p. then_run (write_word body (offset - header_size) p) (link_slots made from slots)))

-- The bytes that the first pass asks the allocator for, for an object of the message.
abbrev pub new_size : Object → ℕ
new_size o = align_up (max ((header_size + length o.body) % 2 ^ 32) header_size)

module _ (types : Registry) where
  abbrev pub encode_known : (ℕ → ℕ) → Object → Walk → TypeInfo → Run (Object × Walk)
  encode_known resolve o w i =
      let size = unwrap_or header_size (object_size_as o.aux o.type_id types) in
      then_run (copy_body (size - header_size) o.body) (λ body.
        then_run (encode_slots resolve o.body (for_each_ptr_offset o.aux i) body w) (λ (body', w').
          ok (
            record {
              type_id = o.type_id;
              aux = if has_variable_size i then o.aux else 0;
              body = body';
            },
            w',
          )))

  abbrev pub encode_object : (ℕ → ℕ) → Object → Walk → Option TypeInfo → Run (Object × Walk)
  encode_object resolve o w none = ok (record { type_id = o.type_id; aux = 0; body = [] }, w)
  encode_object resolve o w (some i) = encode_known resolve o w i

  abbrev pub encode_round : (Walk → Run Wire) → (ℕ → ℕ) → Memory → Walk → Option ℕ → Run Wire
  encode_round rec resolve mem w none = ok []
  encode_round rec resolve mem w (some p) = then_run (or_panic (object_at p mem)) (λ o.
      then_run (encode_object resolve o w (info o.type_id types))
        (λ (object, w'). then_run (rec w') (λ rest. ok (object ∷ rest))))

  -- The `while`, from position `at` of the queue.
  unfoldable pub encode_loop : ℕ → ℕ → (ℕ → ℕ) → Memory → Walk → Run Wire
  encode_loop zero at resolve mem w = out_of_fuel
  encode_loop (suc f) at resolve mem w =
      encode_round (encode_loop f (at + 1) resolve mem) resolve mem w (get_elem? w.queue at)

  -- A round for each object of the memory, and one more.
  unfoldable pub encode : (ℕ → ℕ) → Memory → ℕ → Run Wire
  encode resolve mem root =
      let (index, w) = intern resolve root (record { seen = []; queue = [] }) in
      encode_loop (suc (length mem)) 0 resolve mem w

  abbrev pub cleared : ℕ → List ℕ → Option TypeInfo → Run (List ℕ)
  cleared aux body none = ok body
  cleared aux body (some i) = clear_slots (for_each_ptr_offset aux i) body

  -- What the first pass writes into a new object, whose bytes are `room` when the allocator returns.
  unfoldable pub fill_object : List ℕ → Object → Run Object
  fill_object room o = then_run (copy_into room o.body) (λ body.
      then_run (cleared o.aux body (info o.type_id types))
        (λ body'. ok (record { type_id = o.type_id; aux = o.aux; body = body' })))

  abbrev pub linked : List ℕ → Object → Object → Option TypeInfo → Run Object
  linked made o new none = ok new
  linked made o new (some i) =
      then_run (link_slots made o.body (for_each_ptr_offset new.aux i) new.body)
        (λ body. ok (record new { body = body }))

  -- The second pass, over the message and the addresses.
  unfoldable pub link_all : List ℕ → Wire → List ℕ → Memory → Run Memory
  link_all made [] ps mem = ok mem
  link_all made (o ∷ os) [] mem = ok mem
  link_all made (o ∷ os) (p ∷ ps) mem = then_run (or_panic (object_at p mem)) (λ new.
      then_run (linked made o new (info o.type_id types))
        (λ new'. link_all made os ps (put_object p new' mem)))
