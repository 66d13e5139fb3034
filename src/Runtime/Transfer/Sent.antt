-- ===== src/Runtime/Transfer/Sent.antt =====
-- For one object of `encode`, crates/wsharp-runtime/src/transfer.rs.
use wsharp.Prelude.{
  ℕ, ◌+◌, ◌-◌, ◌*◌, ◌^◌, ◌≤◌, ◌<◌, ◌≡◌, refl, sym, ◌∙◌, subst, some, List, [], ◌∷◌, arith, length,
  some_inj,
}
use wsharp.Prelude.Run.{Run, ok}
use wsharp.Runtime.Header.{header_size}
use wsharp.Runtime.Transfer.{Object, Memory, Walk, intern, encode_slots}
use wsharp.Runtime.Transfer.Bytes.{word_at, put_word, length-put_word}
use wsharp.Runtime.Transfer.Slots.{
  AllApart, AllWords, Filled, Filled-step, read_word-ok, write_word-ok,
}
use wsharp.Runtime.Transfer.Interned.{IsWalk, IsPrefix}
use wsharp.Runtime.Transfer.Codes.{IsCode, IsPrefix-IsCode, IsClosedField, intern-IsInterned}
use wsharp.Runtime.Types.{TypeInfo, Registry, info, object_size_as, for_each_ptr_offset}
use wsharp.Runtime.Types.Visits.{AllWithin, IsLayout, for_each_ptr_offset-AllWithin}

-- An object of a published type, with the bytes that its type says, whose slots do not overlap and hold null or
-- an object of the memory.
pub record IsSound (types : Registry) (resolve : ℕ → ℕ) (mem : Memory) (o : Object) : Type 0 where
  pub layout : TypeInfo
  pub known : info o.type_id types ≡ some layout
  pub shape : IsLayout layout
  pub word : o.aux < 2 ^ 32
  pub room : header_size + o.aux * layout.elem_stride + 16 ≤ 2 ^ 32
  pub size : ℕ
  pub sized : object_size_as o.aux o.type_id types ≡ some size
  pub header : header_size ≤ size
  pub small : size + 16 ≤ 2 ^ 32
  pub whole : size ≤ header_size + length o.body
  pub apart : AllApart (for_each_ptr_offset o.aux layout)
  pub closed :
      AllWords
        (λ s field. IsClosedField resolve mem field)
        (for_each_ptr_offset o.aux layout)
        o.body

pub IsSound-AllWithin :
    (types : Registry) (resolve : ℕ → ℕ) (mem : Memory) (o : Object)
    (s : IsSound types resolve mem o)
    → AllWithin header_size s.size (for_each_ptr_offset o.aux s.layout)
IsSound-AllWithin types resolve mem o s =
    let (n, sized, all) =
      for_each_ptr_offset-AllWithin types o.type_id o.aux s.layout s.known s.shape s.word s.room in
    let same : n ≡ s.size = some_inj n s.size (sym sized ∙ s.sized) in
    subst (λ m. AllWithin header_size m (for_each_ptr_offset o.aux s.layout)) same all

pub AllWords-map :
    (P Q : ℕ → ℕ → Type 0) (slots body : List ℕ)
    → ((s v : ℕ) → P s v → Q s v)
    → AllWords P slots body
    → AllWords Q slots body
AllWords-map P Q [] body f h = tt
AllWords-map P Q (s ∷ ss) body f (p, h) = (f s _ p, AllWords-map P Q ss body f h)

abbrev pub IsCoded : (ℕ → ℕ) → List ℕ → List ℕ → ℕ → ℕ → Type 0
IsCoded resolve queue from s code = IsCode resolve queue (word_at from (s - header_size) 8) code

-- What the loop over the slots gives.
pub record IsSlotsEncoded (resolve : ℕ → ℕ) (mem : Memory) (from slots body : List ℕ) (w : Walk)
    (r : Run (List ℕ × Walk)) : Type 0 where
  pub body' : List ℕ
  pub next : Walk
  pub result : r ≡ ok (body', next)
  pub walk : IsWalk mem next.seen next.queue
  pub grows : IsPrefix w.queue next.queue
  pub filled : Filled (IsCoded resolve next.queue from) slots body body'

pub encode_slots-IsSlotsEncoded :
    (resolve : ℕ → ℕ) (mem : Memory) (n : ℕ) (from slots body : List ℕ) (w : Walk)
    → length mem < 2 ^ 32
    → AllWithin header_size n slots
    → AllApart slots
    → n ≤ header_size + length from
    → n ≤ header_size + length body
    → AllWords (λ s field. IsClosedField resolve mem field) slots from
    → IsWalk mem w.seen w.queue
    → IsSlotsEncoded resolve mem from slots body w (encode_slots resolve from slots body w)
unfolding encode_slots
encode_slots-IsSlotsEncoded resolve mem n from [] body w bound h a room room' closed walk = record {
  body' = body;
  next = w;
  result = refl;
  walk = walk;
  grows = λ k p e. e;
  filled = record { same_length = refl; others = λ i o. refl; words = tt };
}
encode_slots-IsSlotsEncoded resolve mem n from (s ∷ ss) body w bound (low, high, h) (clear, a) room
      room' (c, closed) walk =
    let field = word_at from (s - header_size) 8 in
    let r = intern resolve field w in
    let one = intern-IsInterned resolve mem w field walk bound c in
    let body1 = put_word body (s - header_size) 8 r.0 in
    let room1 : n ≤ header_size + length body1 =
      omega (arith, room', length-put_word 8 (s - header_size) r.0 body) in
    let rest =
      encode_slots-IsSlotsEncoded resolve mem n from ss body1 r.1 bound h a room room1 closed
        one.walk in
    let fits : s + 8 ≤ header_size + length body = omega (arith, high, room') in
    let reads = read_word-ok from s low (omega (arith, high, room)) in
    let code = IsPrefix-IsCode resolve r.1.queue rest.next.queue field r.0 rest.grows one.coded in
    record {
      body' = rest.body';
      next = rest.next;
      result = rw (reads, write_word-ok body s r.0 low fits) rest.result;
      walk = rest.walk;
      grows = λ k p e. rest.grows k p (one.grows k p e);
      filled =
          Filled-step (IsCoded resolve rest.next.queue from) s r.0 ss body rest.body' low fits clear
            one.small code rest.filled;
    }
