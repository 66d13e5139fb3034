-- ===== src/Runtime/Mark/Traced.antt =====
-- For the whole of `mark_all`, crates/wsharp-runtime/src/mark.rs.
use wsharp.Prelude.{
  ℕ, zero, suc, ◌+◌, ◌-◌, ◌%◌, ◌<◌, ◌≡◌, refl, sym, ◌∙◌, ap, ◌⊎◌, inl, inr, Bool, true, false, ◌&&◌,
  none, some, List, [], ◌∷◌, arith, ◌==◌, length, Bool-cases, get_elem?,
}
use wsharp.Prelude.Run.{Run, ok}
use wsharp.Runtime.Header.{header_size, is_marked}
use wsharp.Runtime.Header.Marks.{IsParity}
use wsharp.Runtime.Memory.{object_at}
use wsharp.Runtime.Types.{Registry}
use wsharp.Runtime.Transfer.Bytes.{word_at}
use wsharp.Runtime.Mark.{Cell, Heap, Marker, offsets_of, pending, mark_loop, mark_all}
use wsharp.Runtime.Mark.Fields.{IsIn, IsCollectable}
use wsharp.Runtime.Mark.Cells.{IsMarkedAt, IsLater, IsLater-refl}
use wsharp.Runtime.Mark.Reached.{AllTraceable, IsReachable, root, field}
use wsharp.Runtime.Mark.Rounds.{IsMarkedField, IsTracing, IsVisit-IsTracing}
use wsharp.Runtime.Mark.Visit.{mark_object-IsVisited}

list_cases : (xs : List ℕ) → (xs ≡ []) ⊎ ((p : ℕ) × (work : List ℕ) × (xs ≡ p ∷ work))
list_cases [] = inl refl
list_cases (p ∷ work) = inr (p, work, refl)

and_false : (a b : Bool) → b ≡ false → (a && b) ≡ false
and_false true b e = e
and_false false b e = refl

none_in_nil : (q : ℕ) (xs : List ℕ) → xs ≡ [] → ¬ IsIn q xs
none_in_nil q xs e (k, at) =
    let clash : none ≡ some q = sym (ap (λ (ys : List ℕ). get_elem? ys k) e) ∙ at in absurd (cc)

-- The marker as it begins.
abbrev pub starting : List ℕ → Marker
starting roots = record { work = roots; remembered = [] }

-- No object is marked for the parity.
abbrev pub NoneMarked : ℕ → Heap → Type 0
NoneMarked parity heap =
    (p : ℕ) (c : Cell) → object_at p heap ≡ some c → is_marked parity c.meta ≡ false

module _ (types : Registry) (parity : ℕ) (evacuating : ℕ → Bool) (stop : ℕ → Bool) (heap : Heap)
    (roots : List ℕ) (is_parity : IsParity parity) (traceable : AllTraceable types heap)
    (there : (p : ℕ) → IsIn p roots → (c : Cell) × (object_at p heap ≡ some c)) where
  abbrev Tracing : Heap → Marker → Type 0
  Tracing now m = IsTracing types parity evacuating heap roots is_parity traceable there now m

  -- The end of the loop: unless the marker was told to stop, no work is left.
  record IsEnded (r : Run (Bool × Heap × Marker)) : Type 0 where
    finished : Bool
    next : Heap
    marker : Marker
    result : r ≡ ok (finished, next, marker)
    later : IsLater parity heap next
    done : finished ≡ true → Tracing next marker × (marker.work ≡ [])
    goes_on : ((n : ℕ) → stop n ≡ false) → finished ≡ true

  mark_loop-IsEnded :
      (f visited : ℕ) (now : Heap) (m : Marker)
      → Tracing now m
      → length m.work + pending types parity now < f
      → IsEnded (mark_loop types parity evacuating stop f visited now m)
  unfolding mark_loop
  mark_loop-IsEnded zero visited now m t enough = absurd (omega arith)
  mark_loop-IsEnded (suc f) visited now m t enough = elim (list_cases m.work) [
    | inl is ↦ record {
      finished = true;
      next = now;
      marker = m;
      result = rw is refl;
      later = t.later;
      done = λ e. (t, is);
      goes_on = λ h. refl;
    }
    | inr (p, work, is) ↦ elim (Bool-cases (((visited + 1) % 4096 == 0) && stop (visited + 1))) [
      | inl told ↦ record {
        finished = false;
        next = now;
        marker = record m { work = work };
        result = rw (is, told) refl;
        later = t.later;
        done = λ e. absurd (cc);
        goes_on = λ h.
            let off =
              and_false ((visited + 1) % 4096 == 0) (stop (visited + 1)) (h (visited + 1)) in
            let clash : false ≡ true = sym off ∙ told in absurd (cc);
      }
      | inr on ↦
          let v =
            mark_object-IsVisited types parity evacuating stop heap roots is_parity traceable there
              p work m now is t in
          let t' =
            IsVisit-IsTracing types parity evacuating heap roots is_parity traceable there p work m
              v.marker now v.next is t v.visit in
          let size = ap (λ (w : List ℕ). length w) is in
          let rest =
            mark_loop-IsEnded f (visited + 1) v.next v.marker t'
              (omega (arith, v.fewer, enough, size)) in
          record {
            finished = rest.finished;
            next = rest.next;
            marker = rest.marker;
            result = rw (is, on, v.result) rest.result;
            later = rest.later;
            done = rest.done;
            goes_on = rest.goes_on;
          }
    ]
  ]

  begins : NoneMarked parity heap → Tracing heap (starting roots)
  begins clear = record {
    later = IsLater-refl parity heap;
    waiting = λ q h. root q h;
    marked = λ q c at (d, e, m). let clash : true ≡ false = sym m ∙ clear q d e in absurd (cc);
    from_roots = λ q h. inr h;
    from_fields = λ p s q f.
        let clash : true ≡ false = sym f.after.2 ∙ clear p f.after.0 f.after.1 in absurd (cc);
    noted = λ p s q f e.
        let clash : true ≡ false = sym f.after.2 ∙ clear p f.after.0 f.after.1 in absurd (cc);
  }

  -- A finished trace: an object is marked if it is reached from the roots, and only then.
  pub record IsTraced (r : Run (Bool × Heap × Marker)) : Type 0 where
    pub next : Heap
    pub marker : Marker
    pub result : r ≡ ok (true, next, marker)
    pub no_work : marker.work ≡ []
    pub later : IsLater parity heap next
    pub all : (p : ℕ) → IsReachable types heap roots p → IsMarkedAt parity next p
    pub only : (p : ℕ) → IsMarkedAt parity next p → IsReachable types heap roots p
    pub noted :
        (p s q : ℕ) (c : Cell)
        → IsReachable types heap roots p
        → object_at p heap ≡ some c
        → IsIn s (offsets_of types c)
        → word_at c.body (s - header_size) 8 ≡ q
        → IsCollectable heap q
        → evacuating q ≡ true
        → IsIn (p + s) marker.remembered

  all_marked :
      (now : Heap) (m : Marker)
      → NoneMarked parity heap
      → Tracing now m
      → m.work ≡ []
      → (p : ℕ) → IsReachable types heap roots p
      → IsMarkedAt parity now p
  all_marked now m clear t e p (root _ h) = elim (t.from_roots p h) [
    | inl yes_marked ↦ yes_marked
    | inr waits ↦ absurd (none_in_nil p m.work e waits)
  ]
  all_marked now m clear t e q (field p _ c r at (s, offset, word) ours) =
      let before = all_marked now m clear t e p r in
      let f : IsMarkedField types parity evacuating heap roots is_parity traceable there now p s q =
        record {
          cell = c;
          at = at;
          before = clear p c at;
          after = before;
          offset = offset;
          word = word;
          ours = ours;
        } in
      elim (t.from_fields p s q f) [
        | inl yes_marked ↦ yes_marked
        | inr waits ↦ absurd (none_in_nil q m.work e waits)
      ]

  only_marked :
      (now : Heap) (m : Marker)
      → NoneMarked parity heap
      → Tracing now m
      → (p : ℕ) → IsMarkedAt parity now p
      → IsReachable types heap roots p
  only_marked now m clear t p (d, e, k) =
      let (c, at, s, kept) = t.later.back p d e in
      elim (t.marked p c at (d, e, k)) [
        | inl before ↦ let clash : true ≡ false = sym before ∙ clear p c at in absurd (cc)
        | inr reached ↦ reached
      ]

  -- From a heap in which no object is marked, whose objects have their pointers inside them and to objects or to
  -- nothing, with roots that are objects, and unless the marker is told to stop, `mark_all` returns with its work done.
  -- An object is marked then if a chain of pointers leads to it from the roots, and only then. Nothing of an object has
  -- changed but its mark, and the slot of each pointer of a marked object into a block that is evacuated is noted.
  pub mark_all-IsTraced :
      NoneMarked parity heap
      → ((n : ℕ) → stop n ≡ false)
      → IsTraced (mark_all types parity evacuating stop heap (starting roots))
  unfolding mark_all
  mark_all-IsTraced clear on =
      let end =
        mark_loop-IsEnded (suc (length roots + pending types parity heap)) 0 heap (starting roots)
          (begins clear) (omega arith) in
      let finished = end.goes_on on in
      let (t, e) = end.done finished in
      let marked = all_marked end.next end.marker clear t e in
      record {
        next = end.next;
        marker = end.marker;
        result = end.result ∙ ap (λ b. ok (b, end.next, end.marker)) finished;
        no_work = e;
        later = end.later;
        all = marked;
        only = only_marked end.next end.marker clear t;
        noted = λ p s q c r at offset word ours ev.
            t.noted p s q
              (record {
                cell = c;
                at = at;
                before = clear p c at;
                after = marked p r;
                offset = offset;
                word = word;
                ours = ours;
              })
              ev;
      }

  -- Whether it is told to stop or not, `mark_all` returns, and nothing of an object has changed but its mark, which no
  -- object has lost.
  pub mark_all-IsLater :
      NoneMarked parity heap
      → (finished : Bool) × (next : Heap) × (m : Marker) × (mark_all types parity evacuating stop
            heap
            (starting roots)
          ≡ ok (finished, next, m))
        × IsLater parity heap next
  unfolding mark_all
  mark_all-IsLater clear =
      let end =
        mark_loop-IsEnded (suc (length roots + pending types parity heap)) 0 heap (starting roots)
          (begins clear) (omega arith) in
      (end.finished, end.next, end.marker, end.result, end.later)
