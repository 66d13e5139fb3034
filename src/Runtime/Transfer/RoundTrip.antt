-- ===== src/Runtime/Transfer/RoundTrip.antt =====
-- For `encode` and the second pass of `decode`, one after the other, of crates/wsharp-runtime/src/transfer.rs.
use wsharp.Prelude.{
  ℕ, ◌+◌, ◌^◌, ◌<◌, ◌≡◌, ◌≢◌, refl, sym, ◌∙◌, ap, subst, some, List, arith, length, get_elem?,
  get_elem?-lt, some_inj, lt-length,
}
use wsharp.Prelude.Run.{Run, ok}
use wsharp.Runtime.Memory.{object_at}
use wsharp.Runtime.Transfer.{Object, Wire, Memory, encode, link_all}
use wsharp.Runtime.Transfer.Interned.{IsWalk, queue-number_of}
use wsharp.Runtime.Transfer.Rounds.{AllSound, IsSentFrom, IsWireFrom, walk_from, encode-IsWireFrom}
use wsharp.Runtime.Transfer.Make.{IsReadable, AllDistinct, IsFilled, IsFilledAt-IsMadeAt}
use wsharp.Runtime.Transfer.Decode.{IsNoneOf, IsAllLinked, link_all-IsAllLinked}
use wsharp.Runtime.Transfer.Twins.{IsTwin, IsSent-IsReadable, IsLinked-IsTwin}
use wsharp.Runtime.Types.{Registry}

module _ (types : Registry) (resolve : ℕ → ℕ) (mem : Memory)
    (sound : AllSound types resolve mem) where
  -- The objects at two addresses, before and after, are an object and its copy.
  pub record IsTwinAt (from to : List ℕ) (after : Memory) (p q : ℕ) : Type 0 where
    pub old : Object
    pub old_at : object_at p mem ≡ some old
    pub copy : Object
    pub copy_at : object_at q after ≡ some copy
    pub twin : IsTwin types resolve mem from to old (sound p old old_at) copy

  -- A copy of the graph from `a`: a one-to-one relation of old addresses with new ones, in which the roots, and the
  -- pointers of each object and of its copy, are related.
  pub record IsCopy (a : ℕ) (to : List ℕ) (now : Memory) (r : Run Memory) : Type 0 where
    pub after : Memory
    pub result : r ≡ ok after
    pub from : List ℕ
    pub size : length to ≡ length from
    pub root_from : get_elem? from 0 ≡ some (resolve a)
    pub root : ℕ
    pub root_to : get_elem? to 0 ≡ some root
    pub from_distinct : AllDistinct from
    pub to_distinct : AllDistinct to
    pub others : (q : ℕ) → IsNoneOf q to → object_at q after ≡ object_at q now
    pub twins :
        (k p q : ℕ)
        → get_elem? from k ≡ some p
        → get_elem? to k ≡ some q
        → IsTwinAt from to after p q

  IsWalk-AllDistinct :
      (seen : List (ℕ × ℕ)) (queue : List ℕ) → IsWalk mem seen queue → AllDistinct queue
  IsWalk-AllDistinct seen queue w j k p e f =
      some_inj j k
        (sym (queue-number_of mem seen queue p j w e) ∙ queue-number_of mem seen queue p k w f)

  module _ (a : ℕ) (made : List ℕ) (now : Memory)
      (wire : IsWireFrom types resolve mem sound
        (walk_from (resolve a))
        0
        (encode types resolve mem a))
      (ready : IsFilled types wire.wire made now) where
    sent_at :
        (k p : ℕ) (x : Object)
        → get_elem? wire.queue k ≡ some p
        → get_elem? wire.wire k ≡ some x
        → IsSentFrom types resolve mem sound wire.queue p x
    sent_at k p x e f =
        let place : 0 + k ≡ k = omega arith in
        wire.sent k p x (ap (get_elem? wire.queue) place ∙ e) f

    readable :
        (k : ℕ) (x : Object) → get_elem? wire.wire k ≡ some x → IsReadable types (length made) x
    readable k x e =
        let inside = lt-length wire.wire k x e in
        let (p, at) = get_elem?-lt wire.queue k (omega (arith, inside, wire.size)) in
        let t = sent_at k p x at e in
        subst (λ n. IsReadable types n x) (omega (arith, wire.size, ready.width))
          (IsSent-IsReadable types resolve mem wire.queue t.object (sound p t.object t.at) x t.sent)

    linked_all : IsAllLinked types made wire.wire made now (link_all types made wire.wire made now)
    linked_all =
        link_all-IsAllLinked types made ready.words wire.wire made now ready.width ready.distinct
          (λ k p x e f.
            IsFilledAt-IsMadeAt types (length made) now p x (readable k x f)
              (ready.filled k p x e f))

    twin_at :
        (k p q : ℕ)
        → get_elem? wire.queue k ≡ some p
        → get_elem? made k ≡ some q
        → IsTwinAt wire.queue made linked_all.after p q
    twin_at k p q e f =
        let (x, at) =
          get_elem?-lt wire.wire k (omega (arith, lt-length wire.queue k p e, wire.size)) in
        let t = sent_at k p x e at in
        let l = linked_all.objects k q x f at in
        record {
          old = t.object;
          old_at = t.at;
          copy = l.object;
          copy_at = l.at;
          twin =
              IsLinked-IsTwin types resolve mem wire.queue made t.object (sound p t.object t.at) x
                l.object (length made) l.readable t.sent l.linked;
        }

    linked_IsCopy : IsCopy a made now (link_all types made wire.wire made now)
    linked_IsCopy =
        let first = wire.grows 0 (resolve a) refl in
        let (root, root_to) =
          get_elem?-lt made 0
            (omega (arith, wire.size, ready.width, lt-length wire.queue 0 (resolve a) first)) in
        record {
          after = linked_all.after;
          result = linked_all.result;
          from = wire.queue;
          size = omega (arith, ready.width, wire.size);
          root_from = first;
          root = root;
          root_to = root_to;
          from_distinct = IsWalk-AllDistinct wire.seen wire.queue wire.walk;
          to_distinct = ready.distinct;
          others = linked_all.others;
          twins = twin_at;
        }

  -- The message is what `encode` returns for an object of a memory of fewer than 2^32 objects, all of them of published
  -- types, whole and with pointers to objects of the memory only. In a memory, of this worker or of another, in which
  -- the first pass of `decode` has filled a new object for each of the message, at an address of its own each, the
  -- second pass returns, and the first of these addresses is the root of a copy of the graph, so cycles and shared
  -- objects stay what they are: there is a one-to-one relation of old addresses with new ones that relates the two roots,
  -- and for each related pair of objects the types, the bytes outside the pointers and the `aux` words of elements are
  -- equal, and each pointer of the one is null with that of the other, or related to it. At all other addresses the
  -- memory stays what it was.
  pub link_all-IsCopy :
      (a : ℕ) (o : Object)
      → length mem < 2 ^ 32
      → a ≢ 0
      → object_at (resolve a) mem ≡ some o
      → (wire : Wire) → encode types resolve mem a ≡ ok wire
      → (made : List ℕ) (now : Memory) → IsFilled types wire made now
      → IsCopy a made now (link_all types made wire made now)
  link_all-IsCopy a o bound some_one at wire sent made now ready =
      let w = encode-IsWireFrom types resolve mem sound a o bound some_one at in
      let same : w.wire ≡ wire = cc (w.result, sent) in
      subst (λ x. IsCopy a made now (link_all types made x made now)) same
        (linked_IsCopy a made now w (subst (λ x. IsFilled types x made now) (sym same) ready))
