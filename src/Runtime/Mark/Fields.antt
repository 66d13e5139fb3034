-- ===== src/Runtime/Mark/Fields.antt =====
-- For the closure of `mark_all` over the pointers of an object, crates/wsharp-runtime/src/mark.rs.
use wsharp.Prelude.{
  ℕ, zero, suc, ◌+◌, ◌-◌, ◌≤◌, ◌≡◌, ◌≢◌, refl, sym, ◌∙◌, ap, ◌⊎◌, inl, inr, Bool, true, false, some,
  List, [], ◌∷◌, arith, ◌==◌, ==→≡, ==→≢, length, get_elem?, some_inj, Bool-cases, if◌then◌else◌,
}
use wsharp.Prelude.Run.{Run, ok}
use wsharp.Runtime.Header.{header_size}
use wsharp.Runtime.Memory.{object_at}
use wsharp.Runtime.Types.Visits.{AllWithin}
use wsharp.Runtime.Transfer.Bytes.{word_at}
use wsharp.Runtime.Transfer.Slots.{AllWords, read_word-ok}
use wsharp.Runtime.Mark.{
  Cell, Heap, collectable_cell, is_collectable, Marker, push_field, mark_fields,
}

abbrev pub IsIn : ℕ → List ℕ → Type 0
IsIn q xs = (k : ℕ) × (get_elem? xs k ≡ some q)

pub IsIn-cons : (q x : ℕ) (xs : List ℕ) → IsIn q (x ∷ xs) → (q ≡ x) ⊎ IsIn q xs
IsIn-cons q x xs (zero, e) = inl (sym (some_inj x q e))
IsIn-cons q x xs (suc k, e) = inr (k, e)

-- A pointer that the marker follows.
abbrev pub IsCollectable : Heap → ℕ → Type 0
IsCollectable heap q =
    (q ≢ 0) × (c : Cell) × (object_at q heap ≡ some c) × (collectable_cell c ≡ true)

-- The word at one of the offsets.
abbrev pub IsField : List ℕ → List ℕ → ℕ → Type 0
IsField offsets body q = (s : ℕ) × IsIn s offsets × (word_at body (s - header_size) 8 ≡ q)

-- A pointer to nothing, or to an object of the heap.
abbrev pub IsClosedPointer : Heap → ℕ → ℕ → Type 0
IsClosedPointer heap s q = q ≢ 0 → (c : Cell) × (object_at q heap ≡ some c)

is_collectable-cases :
    (heap : Heap) (s q : ℕ)
    → IsClosedPointer heap s q
    → ((is_collectable heap q ≡ ok true) × IsCollectable heap q)
      ⊎ ((is_collectable heap q ≡ ok false) × (¬ IsCollectable heap q))
is_collectable-cases heap s q closed = elim (Bool-cases (q == 0)) [
  | inl null ↦ inr (rw null refl, λ (there, c, at, ours). there (==→≡ q 0 null))
  | inr there ↦
      let (c, at) = closed (==→≢ q 0 there) in
      elim (Bool-cases (collectable_cell c)) [
        | inl ours ↦ inl (rw (there, at, ours) refl, (==→≢ q 0 there, c, at, ours))
        | inr not_ours ↦ inr (
          rw (there, at, not_ours) refl,
          λ (there', d, at', ours).
              let same : c ≡ d = some_inj c d (sym at ∙ at') in
              let clash : true ≡ false = sym ours ∙ (sym (ap collectable_cell same) ∙ not_ours) in
              absurd (cc),
        )
      ]
]

-- What is pushed for the pointers of an object.
pub record IsPushed (evacuating : ℕ → Bool) (heap : Heap) (p : ℕ) (body offsets : List ℕ)
    (m : Marker) (r : Run Marker) : Type 0 where
  pub next : Marker
  pub result : r ≡ ok next
  pub kept : (q : ℕ) → IsIn q m.work → IsIn q next.work
  pub pushed : (q : ℕ) → IsField offsets body q → IsCollectable heap q → IsIn q next.work
  pub only :
      (q : ℕ) → IsIn q next.work → IsIn q m.work ⊎ (IsField offsets body q × IsCollectable heap q)
  pub bound : length next.work ≤ length m.work + length offsets
  pub still : (a : ℕ) → IsIn a m.remembered → IsIn a next.remembered
  pub noted :
      (s q : ℕ)
      → IsIn s offsets
      → word_at body (s - header_size) 8 ≡ q
      → IsCollectable heap q
      → evacuating q ≡ true
      → IsIn (p + s) next.remembered

remembered_first : (b : Bool) (x : ℕ) (xs : List ℕ) → b ≡ true → IsIn x (if b then x ∷ xs else xs)
remembered_first b x xs e = rw e (0, refl)

remembered_later :
    (b : Bool) (a x : ℕ) (xs : List ℕ) → IsIn a xs → IsIn a (if b then x ∷ xs else xs)
remembered_later true a x xs (k, e) = (suc k, e)
remembered_later false a x xs h = h

module _ (evacuating : ℕ → Bool) (heap : Heap) (p : ℕ) (body : List ℕ) where
  IsPushed-skip :
      (s : ℕ) (ss : List ℕ) (m : Marker) (r : Run Marker)
      → ¬ IsCollectable heap (word_at body (s - header_size) 8)
      → IsPushed evacuating heap p body ss m r
      → IsPushed evacuating heap p body (s ∷ ss) m r
  IsPushed-skip s ss m r not_ours rest = record {
    next = rest.next;
    result = rest.result;
    kept = rest.kept;
    pushed = λ q (t, at, e) ours. elim (IsIn-cons t s ss at) [
      | inl same ↦
          absurd (
            not_ours (rw (sym (ap (λ (n : ℕ). word_at body (n - header_size) 8) same)) (rw e ours)))
      | inr later ↦ rest.pushed q (t, later, e) ours
    ];
    only = λ q h. elim (rest.only q h) [
      | inl old ↦ inl old
      | inr ((t, (k, at), e), ours) ↦ inr ((t, (suc k, at), e), ours)
    ];
    bound = omega (arith, rest.bound);
    still = rest.still;
    noted = λ t q at e ours ev. elim (IsIn-cons t s ss at) [
      | inl same ↦
          absurd (
            not_ours (rw (sym (ap (λ (n : ℕ). word_at body (n - header_size) 8) same)) (rw e ours)))
      | inr later ↦ rest.noted t q later e ours ev
    ];
  }

  IsPushed-push :
      (s : ℕ) (ss : List ℕ) (m : Marker) (r : Run Marker)
      → IsCollectable heap (word_at body (s - header_size) 8)
      → IsPushed evacuating heap p body ss
          (push_field evacuating (p + s) (word_at body (s - header_size) 8) m true)
          r
      → IsPushed evacuating heap p body (s ∷ ss) m r
  IsPushed-push s ss m r ours rest = record {
    next = rest.next;
    result = rest.result;
    kept = λ q (k, e). rest.kept q (suc k, e);
    pushed = λ q (t, at, e) there. elim (IsIn-cons t s ss at) [
      | inl same ↦
          rest.kept q (0, ap some (ap (λ (n : ℕ). word_at body (n - header_size) 8) (sym same) ∙ e))
      | inr later ↦ rest.pushed q (t, later, e) there
    ];
    only = λ q h. elim (rest.only q h) [
      | inl old ↦ elim (IsIn-cons q _ m.work old) [
        | inl same ↦ inr ((s, (0, refl), sym same), rw same ours)
        | inr older ↦ inl older
      ]
      | inr ((t, (k, at), e), there) ↦ inr ((t, (suc k, at), e), there)
    ];
    bound = omega (arith, rest.bound);
    still = λ a h. rest.still a (remembered_later (evacuating _) a (p + s) m.remembered h);
    noted = λ t q at e there ev. elim (IsIn-cons t s ss at) [
      | inl same ↦
          let word = ap (λ (n : ℕ). word_at body (n - header_size) 8) (sym same) ∙ e in
          rw same (
            rest.still (p + s)
              (remembered_first (evacuating _) (p + s) m.remembered (ap evacuating word ∙ ev)))
      | inr later ↦ rest.noted t q later e there ev
    ];
  }

  pub mark_fields-IsPushed :
      (offsets : List ℕ) (m : Marker)
      → AllWithin header_size (header_size + length body) offsets
      → AllWords (IsClosedPointer heap) offsets body
      → IsPushed evacuating heap p body offsets m (mark_fields evacuating heap p body offsets m)
  unfolding mark_fields
  mark_fields-IsPushed [] m h c = record {
    next = m;
    result = refl;
    kept = λ q e. e;
    pushed = λ q (s, (k, at), e) ours. absurd (cc);
    only = λ q e. inl e;
    bound = omega arith;
    still = λ a e. e;
    noted = λ s q (k, at) e ours ev. absurd (cc);
  }
  mark_fields-IsPushed (s ∷ ss) m (low, high, h) (c, cs) =
      let q = word_at body (s - header_size) 8 in
      let reads = read_word-ok body s low high in
      elim (is_collectable-cases heap s q c) [
        | inl (e, ours) ↦
            rw (reads, e)
              (IsPushed-push s ss m _ ours
                (mark_fields-IsPushed ss (push_field evacuating (p + s) q m true) h cs))
        | inr (e, not_ours) ↦
            rw (reads, e) (IsPushed-skip s ss m _ not_ours (mark_fields-IsPushed ss m h cs))
      ]
