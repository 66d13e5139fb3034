-- ===== src/Runtime/Transfer/Encode.antt =====
-- For `encode` of crates/wsharp-runtime/src/transfer.rs.
use wsharp.Prelude.{
  ℕ, ◌+◌, ◌-◌, ◌^◌, ◌≤◌, ◌<◌, ◌≡◌, refl, ◌∙◌, List, arith, length, get_elem?, take, length-take,
  get_elem?-take, true, leb, if◌then◌else◌,
}
use wsharp.Prelude.Run.{Run, ok}
use wsharp.Runtime.Header.{header_size}
use wsharp.Runtime.Transfer.{Object, Memory, Walk, encode_object, copy_body}
use wsharp.Runtime.Transfer.Slots.{IsOutside, AllWords}
use wsharp.Runtime.Transfer.Interned.{IsWalk, IsPrefix}
use wsharp.Runtime.Transfer.Codes.{IsPrefix-IsCode}
use wsharp.Runtime.Transfer.Sent.{
  IsSound, IsSound-AllWithin, AllWords-map, IsCoded, encode_slots-IsSlotsEncoded,
}
use wsharp.Runtime.Types.{Registry, info, has_variable_size, for_each_ptr_offset}

-- The message's form of an object.
pub record IsSent (types : Registry) (resolve : ℕ → ℕ) (mem : Memory) (queue : List ℕ) (o : Object)
    (s : IsSound types resolve mem o) (x : Object) : Type 0 where
  pub same_type : x.type_id ≡ o.type_id
  pub same_aux : x.aux ≡ (if has_variable_size s.layout then o.aux else 0)
  pub size : header_size + length x.body ≡ s.size
  pub bytes :
      (i : ℕ)
      → header_size + i < s.size
      → IsOutside i (for_each_ptr_offset o.aux s.layout)
      → get_elem? x.body i ≡ get_elem? o.body i
  pub codes : AllWords (IsCoded resolve queue o.body) (for_each_ptr_offset o.aux s.layout) x.body

pub IsPrefix-IsSent :
    (types : Registry) (resolve : ℕ → ℕ) (mem : Memory) (xs ys : List ℕ) (o : Object)
    (s : IsSound types resolve mem o) (x : Object)
    → IsPrefix xs ys
    → IsSent types resolve mem xs o s x
    → IsSent types resolve mem ys o s x
IsPrefix-IsSent types resolve mem xs ys o s x h t = record {
  same_type = t.same_type;
  same_aux = t.same_aux;
  size = t.size;
  bytes = t.bytes;
  codes =
      AllWords-map (IsCoded resolve xs o.body) (IsCoded resolve ys o.body)
        (for_each_ptr_offset o.aux s.layout) x.body
        (λ k v c. IsPrefix-IsCode resolve xs ys (_) v h c) t.codes;
}

pub record IsObjectEncoded (types : Registry) (resolve : ℕ → ℕ) (mem : Memory) (o : Object)
    (s : IsSound types resolve mem o) (w : Walk) (r : Run (Object × Walk)) : Type 0 where
  pub object : Object
  pub next : Walk
  pub result : r ≡ ok (object, next)
  pub walk : IsWalk mem next.seen next.queue
  pub grows : IsPrefix w.queue next.queue
  pub sent : IsSent types resolve mem next.queue o s object

copy_body-ok : (n : ℕ) (body : List ℕ) → n ≤ length body → copy_body n body ≡ ok (take n body)
copy_body-ok n body h = let fits : leb n (length body) ≡ true = ground arith in rw fits refl

-- The object is sent, and nothing else of the walk changes.
pub encode_object-IsObjectEncoded :
    (types : Registry) (resolve : ℕ → ℕ) (mem : Memory) (o : Object)
    (s : IsSound types resolve mem o) (w : Walk)
    → length mem < 2 ^ 32
    → IsWalk mem w.seen w.queue
    → IsObjectEncoded types resolve mem o s w
        (encode_object types resolve o w (info o.type_id types))
encode_object-IsObjectEncoded types resolve mem o s w bound walk =
    let n = s.size - header_size in
    let fits : n ≤ length o.body = omega (arith, s.whole, s.header) in
    let copied = length-take n o.body fits in
    let slots = for_each_ptr_offset o.aux s.layout in
    let r =
      encode_slots-IsSlotsEncoded resolve mem s.size o.body slots (take n o.body) w bound
        (IsSound-AllWithin types resolve mem o s) s.apart s.whole (omega (arith, copied, s.header))
        s.closed walk in
    record {
      object = record {
        type_id = o.type_id;
        aux = if has_variable_size s.layout then o.aux else 0;
        body = r.body';
      };
      next = r.next;
      result = rw (s.known, s.sized, copy_body-ok n o.body fits, r.result) refl;
      walk = r.walk;
      grows = r.grows;
      sent = record {
        same_type = refl;
        same_aux = refl;
        size = omega (arith, r.filled.same_length, copied, s.header);
        bytes = λ i low out.
            r.filled.others i out ∙ get_elem?-take n i o.body (omega (arith, low, s.header));
        codes = r.filled.words;
      };
    }
