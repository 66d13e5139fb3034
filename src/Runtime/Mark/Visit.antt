-- ===== src/Runtime/Mark/Visit.antt =====
-- For the work of `mark_all` on one object, crates/wsharp-runtime/src/mark.rs.
use wsharp.Prelude.{
  ℕ, ◌+◌, ◌-◌, ◌^◌, ◌≤◌, ◌<◌, ◌≡◌, refl, sym, ◌∙◌, ap, ◌⊎◌, inl, inr, Bool, true, false, not, some,
  List, ◌∷◌, arith, ◌==◌, ==→≡, ==→≢, length, subst, some_inj, Bool-cases,
}
use wsharp.Prelude.Run.{Run, ok}
use wsharp.Runtime.Header.{header_size, is_marked, claim_mark}
use wsharp.Runtime.Header.Marks.{IsParity, claim_mark-once}
use wsharp.Runtime.Memory.{object_at, put_object, object_at-put_self, object_at-put_ne}
use wsharp.Runtime.Types.{Registry}
use wsharp.Runtime.Transfer.Bytes.{word_at}
use wsharp.Runtime.Mark.{
  Cell, Heap, Marker, offsets_of, pointers_of, pending, mark_object, mark_fields,
}
use wsharp.Runtime.Mark.Fields.{IsIn, IsField, IsCollectable, IsPushed, mark_fields-IsPushed}
use wsharp.Runtime.Mark.Cells.{
  SameCell, SameCell-trans, SameCell-offsets_of, claimed_cell, claimed_cell-SameCell, IsMarkedAt,
  IsLater, IsLater-trans, put-IsLater,
}
use wsharp.Runtime.Mark.Reached.{
  AllTraceable, IsReachable, field, IsReachable-object_at, IsCollectable-later,
  IsCollectable-earlier, AllTraceable-later, pending-put,
}
use wsharp.Runtime.Mark.Rounds.{IsMarkedField, IsTracing, IsVisit}

IsField-same :
    (types : Registry) (c d : Cell) (q : ℕ)
    → SameCell c d
    → IsField (offsets_of types d) d.body q
    → IsField (offsets_of types c) c.body q
IsField-same types c d q s f =
    subst (λ b. IsField (offsets_of types c) b q) s.body
      (subst (λ os. IsField os d.body q) (SameCell-offsets_of types c d s) f)

IsField-back :
    (types : Registry) (c d : Cell) (q : ℕ)
    → SameCell c d
    → IsField (offsets_of types c) c.body q
    → IsField (offsets_of types d) d.body q
IsField-back types c d q s f =
    subst (λ b. IsField (offsets_of types d) b q) (sym s.body)
      (subst (λ os. IsField os c.body q) (sym (SameCell-offsets_of types c d s)) f)

-- The marks after the claim on the object at `p`.
claimed_others :
    (parity : ℕ) (now : Heap) (p : ℕ) (d : Cell) (q : ℕ)
    → IsMarkedAt parity (put_object p d now) q
    → IsMarkedAt parity now q ⊎ (q ≡ p)
claimed_others parity now p d q (x, e, m) = elim (Bool-cases (p == q)) [
  | inl hit ↦ inr (sym (==→≡ p q hit))
  | inr miss ↦ inl (x, sym (object_at-put_ne p q d now (==→≢ p q miss)) ∙ e, m)
]

module _ (types : Registry) (parity : ℕ) (evacuating : ℕ → Bool) (stop : ℕ → Bool) (heap : Heap)
    (roots : List ℕ) (is_parity : IsParity parity) (traceable : AllTraceable types heap)
    (there : (p : ℕ) → IsIn p roots → (c : Cell) × (object_at p heap ≡ some c)) where
  -- What `mark_object` gives, with a bound on the visits that are left.
  pub record IsVisited (p : ℕ) (work : List ℕ) (m : Marker) (now : Heap) (r : Run (Heap × Marker))
      : Type 0 where
    pub next : Heap
    pub marker : Marker
    pub result : r ≡ ok (next, marker)
    pub visit :
        IsVisit types parity evacuating heap roots is_parity traceable there p work m now next
          marker
    pub fewer :
        length marker.work + pending types parity next ≤ length work + pending types parity now

  -- The object at `p`, as it was and as it is.
  module _ (p : ℕ) (work : List ℕ) (m : Marker) (now : Heap) (c d : Cell)
      (at : object_at p heap ≡ some c) (at_now : object_at p now ≡ some d)
      (later : IsLater parity heap now) (same : SameCell c d)
      (reached : IsReachable types heap roots p) where
    small_now : d.meta < 2 ^ 64
    small_now = same.small (traceable p c at).small

    abbrev next_heap : Heap
    next_heap = put_object p (claimed_cell parity d) now

    step_now : IsLater parity now next_heap
    step_now =
        let (s, on) = claimed_cell-SameCell parity d small_now is_parity in
        put-IsLater parity now p d (claimed_cell parity d) at_now s (λ h. on)

    here_now : IsMarkedAt parity next_heap p
    here_now =
        let (s, on) = claimed_cell-SameCell parity d small_now is_parity in
        (claimed_cell parity d, object_at-put_self p (claimed_cell parity d) d now at_now, on)

    -- An object that is marked already.
    marked_before :
        is_marked parity d.meta ≡ true
        → IsVisited p work m now
            (mark_object types parity evacuating stop now p (record m { work = work }))
    marked_before e =
        let once = claim_mark-once parity d.meta small_now is_parity in
        let lost : (claim_mark parity d.meta).1 ≡ false = once.0 ∙ ap not e in
        let (s, on) = claimed_cell-SameCell parity d small_now is_parity in
        let count = pending-put types parity now p d (claimed_cell parity d) at_now on in
        record {
          next = next_heap;
          marker = record m { work = work };
          result = rw (at_now, lost) refl;
          visit = record {
            step = step_now;
            here = here_now;
            others = claimed_others parity now p (claimed_cell parity d);
            kept = λ q h. h;
            still = λ a h. h;
            only = λ q h. inl h;
            pushed = λ s q f. inl (record {
              cell = f.cell;
              at = f.at;
              before = f.before;
              after = (d, at_now, e);
              offset = f.offset;
              word = f.word;
              ours = f.ours;
            });
          };
          fewer = omega (arith, count);
        }

    -- The object that this claim marks.
    cell_same : SameCell c (claimed_cell parity d)
    cell_same =
        let (s, on) = claimed_cell-SameCell parity d small_now is_parity in
        SameCell-trans c d (claimed_cell parity d) same s

    heap-IsLater : IsLater parity heap next_heap
    heap-IsLater = IsLater-trans parity heap now next_heap later step_now

    pushes :
        IsPushed evacuating next_heap p d.body
          (offsets_of types (claimed_cell parity d))
          (record m { work = work })
          (mark_fields evacuating next_heap p d.body
            (offsets_of types (claimed_cell parity d))
            (record m { work = work }))
    pushes =
        let t =
          AllTraceable-later types parity heap next_heap heap-IsLater traceable p
            (claimed_cell parity d) (object_at-put_self p (claimed_cell parity d) d now at_now) in
        mark_fields-IsPushed evacuating next_heap p d.body
          (offsets_of types (claimed_cell parity d)) (record m { work = work }) t.within t.closed

    pushed_reached :
        (q : ℕ)
        → IsField (offsets_of types (claimed_cell parity d)) d.body q × IsCollectable next_heap q
        → IsReachable types heap roots q
    pushed_reached q (f, ours) =
        field p q c reached at (IsField-same types c (claimed_cell parity d) q cell_same f)
          (IsCollectable-earlier types parity heap next_heap heap-IsLater q ours)

    -- Its fields wait afterwards, and those into a block that is evacuated are noted.
    pushed_fields :
        (s q : ℕ)
        → IsMarkedField types parity evacuating heap roots is_parity traceable there next_heap p s q
        → IsIn q pushes.next.work × (evacuating q ≡ true → IsIn (p + s) pushes.next.remembered)
    pushed_fields s q f =
        let cells =
          subst (λ x. SameCell x (claimed_cell parity d)) (some_inj c f.cell (sym at ∙ f.at))
            cell_same in
        let offset =
          subst (IsIn s) (sym (SameCell-offsets_of types f.cell (claimed_cell parity d) cells))
            f.offset in
        let word = ap (λ (b : List ℕ). word_at b (s - header_size) 8) cells.body ∙ f.word in
        let ours = IsCollectable-later types parity heap next_heap heap-IsLater q f.ours in
        (pushes.pushed q (s, offset, word) ours, λ e. pushes.noted s q offset word ours e)

    marked_now :
        is_marked parity d.meta ≡ false
        → IsVisited p work m now
            (mark_object types parity evacuating stop now p (record m { work = work }))
    marked_now e =
        let once = claim_mark-once parity d.meta small_now is_parity in
        let won : (claim_mark parity d.meta).1 ≡ true = once.0 ∙ ap not e in
        let (s, on) = claimed_cell-SameCell parity d small_now is_parity in
        let count = pending-put types parity now p d (claimed_cell parity d) at_now on in
        let counted : pointers_of types d (is_marked parity d.meta) ≡ length (offsets_of types d) =
          rw e refl in
        let offsets =
          ap (λ (os : List ℕ). length os) (SameCell-offsets_of types d (claimed_cell parity d) s) in
        record {
          next = next_heap;
          marker = pushes.next;
          result = rw (at_now, won, pushes.result) refl;
          visit = record {
            step = step_now;
            here = here_now;
            others = claimed_others parity now p (claimed_cell parity d);
            kept = pushes.kept;
            still = pushes.still;
            only = λ q h. elim (pushes.only q h) [
              | inl old ↦ inl old
              | inr new ↦ inr (pushed_reached q new)
            ];
            pushed = λ s q f. inr (pushed_fields s q f);
          };
          fewer = omega (arith, count, counted, offsets, pushes.bound);
        }

  pub mark_object-IsVisited :
      (p : ℕ) (work : List ℕ) (m : Marker) (now : Heap)
      → m.work ≡ p ∷ work
      → IsTracing types parity evacuating heap roots is_parity traceable there now m
      → IsVisited p work m now
          (mark_object types parity evacuating stop now p (record m { work = work }))
  mark_object-IsVisited p work m now is t =
      let reached = t.waiting p (subst (IsIn p) (sym is) (0, refl)) in
      let (c, at) = IsReachable-object_at types heap roots p there reached in
      let (d, at_now, same, k) = t.later.forth p c at in
      elim (Bool-cases (is_marked parity d.meta)) [
        | inl e ↦ marked_before p work m now c d at at_now t.later same reached e
        | inr e ↦ marked_now p work m now c d at at_now t.later same reached e
      ]
