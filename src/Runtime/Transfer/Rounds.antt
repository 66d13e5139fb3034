-- ===== src/Runtime/Transfer/Rounds.antt =====
-- For the `while` of `encode`, crates/wsharp-runtime/src/transfer.rs.
use wsharp.Prelude.{
  ℕ, zero, suc, ◌+◌, ◌^◌, ◌≤◌, ◌<◌, ◌≡◌, ◌≢◌, refl, sym, ◌∙◌, ap, inl, inr, none, some, List, [],
  ◌∷◌, arith, length, get_elem?, false, ◌==◌, some_inj, lt-length, option_cases,
}
use wsharp.Prelude.Run.{Run, ok}
use wsharp.Runtime.Memory.{object_at}
use wsharp.Runtime.Transfer.{Object, Wire, Memory, Walk, encode_object, encode_loop, encode, intern}
use wsharp.Runtime.Transfer.Interned.{
  IsWalk, start, step, IsPrefix, queue_le_memory, queue-object_at,
}
use wsharp.Runtime.Transfer.Sent.{IsSound}
use wsharp.Runtime.Transfer.Encode.{
  IsSent, IsPrefix-IsSent, IsObjectEncoded, encode_object-IsObjectEncoded,
}
use wsharp.Runtime.Types.{Registry, info}

abbrev pub AllSound : Registry → (ℕ → ℕ) → Memory → Type 0
AllSound types resolve mem =
    (p : ℕ) (o : Object) → object_at p mem ≡ some o → IsSound types resolve mem o

-- The walk once the root has a number.
abbrev pub walk_from : ℕ → Walk
walk_from p = record { seen = (p, 0) ∷ []; queue = p ∷ [] }

past_end : (xs : List ℕ) (i : ℕ) → get_elem? xs i ≡ none → length xs ≤ i
past_end [] i e = omega arith
past_end (x ∷ xs) zero e = absurd (cc)
past_end (x ∷ xs) (suc i) e = omega (arith, past_end xs i e)

module _ (types : Registry) (resolve : ℕ → ℕ) (mem : Memory)
    (sound : AllSound types resolve mem) where
  -- The message's form of the object at an address.
  pub record IsSentFrom (queue : List ℕ) (p : ℕ) (x : Object) : Type 0 where
    pub object : Object
    pub at : object_at p mem ≡ some object
    pub sent : IsSent types resolve mem queue object (sound p object at) x

  IsPrefix-IsSentFrom :
      (xs ys : List ℕ) (p : ℕ) (x : Object) → IsPrefix xs ys → IsSentFrom xs p x → IsSentFrom ys p x
  IsPrefix-IsSentFrom xs ys p x h t = record {
    object = t.object;
    at = t.at;
    sent = IsPrefix-IsSent types resolve mem xs ys t.object (sound p t.object t.at) x h t.sent;
  }

  -- A message for the rest of a queue, which may have grown.
  pub record IsWireFrom (w : Walk) (at : ℕ) (r : Run Wire) : Type 0 where
    pub wire : Wire
    pub seen : List (ℕ × ℕ)
    pub queue : List ℕ
    pub result : r ≡ ok wire
    pub walk : IsWalk mem seen queue
    pub grows : IsPrefix w.queue queue
    pub size : at + length wire ≡ length queue
    pub sent :
        (k p : ℕ) (x : Object)
        → get_elem? queue (at + k) ≡ some p
        → get_elem? wire k ≡ some x
        → IsSentFrom queue p x

  at_end :
      (w : Walk) (at f : ℕ)
      → IsWalk mem w.seen w.queue
      → length w.queue ≤ at
      → at ≤ length w.queue
      → get_elem? w.queue at ≡ none
      → IsWireFrom w at (encode_loop types (suc f) at resolve mem w)
  unfolding encode_loop
  at_end w at f walk low high e = record {
    wire = [];
    seen = w.seen;
    queue = w.queue;
    result = rw e refl;
    walk = walk;
    grows = λ k p h. h;
    size = omega (arith, low, high);
    sent = λ k p x h n. absurd (cc);
  }

  -- A round, and the message of the later rounds.
  one_round :
      (w : Walk) (at f p : ℕ) (o : Object) (e : object_at p mem ≡ some o)
      → get_elem? w.queue at ≡ some p
      → (one : IsObjectEncoded types resolve mem o
          (sound p o e)
          w
          (encode_object types resolve o w (info o.type_id types)))
      → IsWireFrom one.next (at + 1) (encode_loop types f (at + 1) resolve mem one.next)
      → IsWireFrom w at (encode_loop types (suc f) at resolve mem w)
  unfolding encode_loop
  one_round w at f p o e here one rest = record {
    wire = one.object ∷ rest.wire;
    seen = rest.seen;
    queue = rest.queue;
    result = rw (here, e, one.result, rest.result) refl;
    walk = rest.walk;
    grows = λ k q h. rest.grows k q (one.grows k q h);
    size = omega (arith, rest.size);
    sent = sent;
  }
    where
      head : IsSentFrom rest.queue p one.object
      head =
          IsPrefix-IsSentFrom one.next.queue rest.queue p one.object rest.grows
            (record { object = o; at = e; sent = one.sent })

      sent :
          (k q : ℕ) (x : Object)
          → get_elem? rest.queue (at + k) ≡ some q
          → get_elem? (one.object ∷ rest.wire) k ≡ some x
          → IsSentFrom rest.queue q x
      sent zero q x h n =
          let whole : at + 0 ≡ at = omega arith in
          let there = rest.grows at p (one.grows at p here) in
          let same : p ≡ q =
            some_inj p q (sym there ∙ (sym (ap (get_elem? rest.queue) whole) ∙ h)) in
          let object : one.object ≡ x = some_inj one.object x n in rw (sym same, sym object) head
      sent (suc k) q x h n =
          let next : at + 1 + k ≡ at + suc k = omega arith in
          rest.sent k q x (ap (get_elem? rest.queue) next ∙ h) n

  -- The loop ends: as many rounds as the memory has objects are enough, and one more.
  encode_loop-IsWireFrom :
      (f at : ℕ) (w : Walk)
      → length mem < 2 ^ 32
      → IsWalk mem w.seen w.queue
      → at ≤ length w.queue
      → length mem < at + f
      → IsWireFrom w at (encode_loop types f at resolve mem w)
  encode_loop-IsWireFrom zero at w bound walk high enough =
      absurd (omega (arith, queue_le_memory mem w.seen w.queue walk))
  encode_loop-IsWireFrom (suc f) at w bound walk high enough =
      elim (option_cases (get_elem? w.queue at)) [
        | inr e ↦ at_end w at f walk (past_end w.queue at e) high e
        | inl (p, here) ↦
            let (o, e) = queue-object_at mem w.seen w.queue p at walk here in
            let one =
              encode_object-IsObjectEncoded types resolve mem o (sound p o e) w bound walk in
            let there = one.grows at p here in
            one_round w at f p o e here one (
              encode_loop-IsWireFrom f (at + 1) one.next bound one.walk
                (omega (arith, lt-length one.next.queue at p there)) (omega arith))
      ]

  -- For a memory of fewer than 2^32 objects, all of them of published types, whole and with pointers to objects of the
  -- memory only, and the address of an object, `encode` returns: its walk ends, without a panic. The message has an
  -- object for each address that was queued, in the queue's order, and the root's is the first. An address is queued
  -- once. Each object of the message has the type of the memory's object, its `aux` word if it has elements, and its
  -- bytes outside the pointers, and for each pointer the place in the queue of what it pointed to plus one, or 0 for null.
  pub encode-IsWireFrom :
      (root : ℕ) (o : Object)
      → length mem < 2 ^ 32
      → root ≢ 0
      → object_at (resolve root) mem ≡ some o
      → IsWireFrom (walk_from (resolve root)) 0 (encode types resolve mem root)
  unfolding encode intern
  encode-IsWireFrom root o bound some_one at =
      let there : (root == 0) ≡ false = ground arith in
      rw there (
        encode_loop-IsWireFrom (suc (length mem)) 0 (walk_from (resolve root)) bound
          (step (resolve root) o [] [] start at refl) (omega arith) (omega arith))
