-- ===== src/Codegen/Repr/Agree.antt =====
-- For the machine slots of crates/wsharp-codegen/src/repr.rs and the offsets that the collector is given.
use wsharp.Prelude.{
  ℕ, suc, ◌+◌, ◌/◌, ◌≤◌, ◌≡◌, ◌≢◌, refl, ap, some, List, [], ◌∷◌, arith, length, get_elem?,
  lt-length,
}
use wsharp.Sema.Ty.{
  Ty, Args, var, con, nil, cons, int, f64, bool, void, str, struct, fn, array, optional, err_union,
  error, worker, error_set, abstract,
}
use wsharp.Sema.Layout.{
  slot_size, add32, then_some-eq-some, is_heap_pointer, ptr_offsets, slot_count,
}
use wsharp.Sema.Layout.Slots.{IsLaid, IsShallow, tags, PointsInside, ptr_offsets-inside}
use wsharp.Codegen.Repr.{Machine, i8, i32, i64, slot_types, pointer_slots, clif_int}

-- A value has as many machine values as the analyser counts slots.
slots_counted :
    (t : Ty) (ms : List Machine)
    → IsLaid t
    → IsShallow t
    → slot_types t ≡ some ms
    → (slot_count t ≡ some (length ms)) × (length ms ≤ tags t + 1)
unfolding slot_types slot_count
slots_counted (con optional nil) ms w h e = absurd w
slots_counted (con err_union nil) ms w h e = absurd w
slots_counted (con optional (cons a ts)) ms w h e =
    let (out, ea, eo) = then_some-eq-some (slot_types a) (λ out. some (i8 ∷ out)) ms e in
    let same : ms ≡ i8 ∷ out = ground arith in
    let (n, le) = slots_counted a out w (omega arith) ea in
    let fits : add32 1 (length out) ≡ suc (length out) = omega arith in
    rw (same, n) (ap some fits, omega arith)
slots_counted (con err_union (cons a ts)) ms w h e =
    let (out, ea, eo) = then_some-eq-some (slot_types a) (λ out. some (i32 ∷ out)) ms e in
    let same : ms ≡ i32 ∷ out = ground arith in
    let (n, le) = slots_counted a out w (omega arith) ea in
    let fits : add32 1 (length out) ≡ suc (length out) = omega arith in
    rw (same, n) (ap some fits, omega arith)
slots_counted (con void ts) ms w h e =
    let same : ms ≡ [] = ground arith in rw same (refl, omega arith)
slots_counted (con (int t) ts) ms w h e =
    let (m, em, eo) = then_some-eq-some (clif_int t) (λ m. some (m ∷ [])) ms e in
    let same : ms ≡ m ∷ [] = ground arith in rw same (refl, omega arith)
slots_counted t ms w h e = ground arith

-- The slot that holds a pointer is the payload's, and it is a pointer's machine value.
pointer_slot :
    (t : Ty) (ms : List Machine) (base o : ℕ) (os : List ℕ)
    → slot_types t ≡ some ms
    → ptr_offsets t base ≡ some (o ∷ os)
    → get_elem? ms (tags t) ≡ some i64
unfolding slot_types ptr_offsets
pointer_slot (con optional nil) ms base o os e p = absurd (cc)
pointer_slot (con err_union nil) ms base o os e p = absurd (cc)
pointer_slot (con optional (cons a ts)) ms base o os e p =
    let (out, ea, eo) = then_some-eq-some (slot_types a) (λ out. some (i8 ∷ out)) ms e in
    let same : ms ≡ i8 ∷ out = ground arith in
    rw same (pointer_slot a out (add32 base slot_size) o os ea p)
pointer_slot (con err_union (cons a ts)) ms base o os e p =
    let (out, ea, eo) = then_some-eq-some (slot_types a) (λ out. some (i32 ∷ out)) ms e in
    let same : ms ≡ i32 ∷ out = ground arith in
    rw same (pointer_slot a out (add32 base slot_size) o os ea p)
pointer_slot t ms base o os e p = ground arith

-- The payload of a value, under its tags, is a pointer to an object of the heap.
pub data HoldsPointer : Ty → Type 0 where
  of_str : (ts : Args) → HoldsPointer (con str ts)
  of_struct : (id : ℕ) (ts : Args) → HoldsPointer (con (struct id) ts)
  of_fn : (ts : Args) → HoldsPointer (con fn ts)
  of_array : (ts : Args) → HoldsPointer (con array ts)
  in_optional : (a : Ty) (ts : Args) → HoldsPointer a → HoldsPointer (con optional (cons a ts))
  in_err_union : (a : Ty) (ts : Args) → HoldsPointer a → HoldsPointer (con err_union (cons a ts))

HoldsPointer-offset : (t : Ty) (base : ℕ) → HoldsPointer t → ptr_offsets t base ≢ some []
unfolding ptr_offsets is_heap_pointer
HoldsPointer-offset (con str ts) base (of_str _) e = ground arith
HoldsPointer-offset (con (struct id) ts) base (of_struct _ _) e = ground arith
HoldsPointer-offset (con fn ts) base (of_fn _) e = ground arith
HoldsPointer-offset (con array ts) base (of_array _) e = ground arith
HoldsPointer-offset (con optional nil) base h e = elim h [ ]
HoldsPointer-offset (con err_union nil) base h e = elim h [ ]
HoldsPointer-offset (con optional (cons a ts)) base (in_optional _ _ h) e =
    HoldsPointer-offset a (add32 base slot_size) h e
HoldsPointer-offset (con err_union (cons a ts)) base (in_err_union _ _ h) e =
    HoldsPointer-offset a (add32 base slot_size) h e
HoldsPointer-offset (var v) base h e = elim h [ ]
HoldsPointer-offset (con (int i) ts) base h e = elim h [ ]
HoldsPointer-offset (con f64 ts) base h e = elim h [ ]
HoldsPointer-offset (con bool ts) base h e = elim h [ ]
HoldsPointer-offset (con void ts) base h e = elim h [ ]
HoldsPointer-offset (con error ts) base h e = elim h [ ]
HoldsPointer-offset (con (worker id) ts) base h e = elim h [ ]
HoldsPointer-offset (con (error_set id) ts) base h e = elim h [ ]
HoldsPointer-offset (con (abstract id) ts) base h e = elim h [ ]

offset-HoldsPointer :
    (t : Ty) (base o : ℕ) (os : List ℕ) → ptr_offsets t base ≡ some (o ∷ os) → HoldsPointer t
unfolding ptr_offsets is_heap_pointer
offset-HoldsPointer (con str ts) base o os e = of_str ts
offset-HoldsPointer (con (struct id) ts) base o os e = of_struct id ts
offset-HoldsPointer (con fn ts) base o os e = of_fn ts
offset-HoldsPointer (con array ts) base o os e = of_array ts
offset-HoldsPointer (con optional nil) base o os e = absurd (ground arith)
offset-HoldsPointer (con err_union nil) base o os e = absurd (ground arith)
offset-HoldsPointer (con optional (cons a ts)) base o os e =
    in_optional a ts (offset-HoldsPointer a (add32 base slot_size) o os e)
offset-HoldsPointer (con err_union (cons a ts)) base o os e =
    in_err_union a ts (offset-HoldsPointer a (add32 base slot_size) o os e)
offset-HoldsPointer t base o os e = absurd (ground arith)

-- For a type that has machine slots, whose integers have a width of 8, 16, 32 or 64 bits and which has
-- fewer than 2^28 tags: the analyser's count of slots is the number of the machine values. If the
-- payload under the tags is a string, a struct, a function or an array, then `pointer_slots` returns
-- the last slot alone, and its machine type is that of a pointer; if it is not, no slot.
pub slot_types-pointer_slots :
    (t : Ty) (ms : List Machine)
    → IsLaid t
    → IsShallow t
    → slot_types t ≡ some ms
    → (slot_count t ≡ some (length ms))
      × (HoldsPointer t
          → (pointer_slots t ≡ some (tags t ∷ []))
            × (suc (tags t) ≡ length ms)
            × (get_elem? ms (tags t) ≡ some i64))
      × (¬ HoldsPointer t → pointer_slots t ≡ some [])
unfolding pointer_slots
slot_types-pointer_slots t ms w h e =
    let (n, le) = slots_counted t ms w h e in
    let (os, p, inside) = ptr_offsets-inside t 0 w (omega arith) in
    (n, λ holds. named os p inside le holds, λ apart. unnamed os p apart)
  where
    named :
        (os : List ℕ)
        → ptr_offsets t 0 ≡ some os
        → PointsInside t 0 os
        → length ms ≤ tags t + 1
        → HoldsPointer t
        → (pointer_slots t ≡ some (tags t ∷ []))
          × (suc (tags t) ≡ length ms)
          × (get_elem? ms (tags t) ≡ some i64)
    named [] p q le holds = absurd (HoldsPointer-offset t 0 holds p)
    named (o ∷ []) p q le holds =
        let at : o / slot_size ≡ tags t = omega arith in
        let found = pointer_slot t ms 0 o [] e p in
        (rw (p, at) refl, omega (arith, lt-length ms (tags t) i64 found), found)
    named (o ∷ o' ∷ os) p q le holds = absurd q

    unnamed :
        (os : List ℕ) → ptr_offsets t 0 ≡ some os → ¬ HoldsPointer t → pointer_slots t ≡ some []
    unnamed [] p apart = rw p refl
    unnamed (o ∷ os) p apart = absurd (apart (offset-HoldsPointer t 0 o os p))
