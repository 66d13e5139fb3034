-- ===== src/Runtime/Transfer/Twins.antt =====
-- How the objects of `encode` and those of `decode` correspond, crates/wsharp-runtime/src/transfer.rs.
use wsharp.Prelude.{
  ℕ, ◌+◌, ◌-◌, ◌≤◌, ◌<◌, ◌≡◌, ◌≢◌, refl, sym, ◌∙◌, ap, subst, ◌⊎◌, inl, inr, some, List, [], ◌∷◌,
  arith, length, get_elem?, true, ◌==◌, if◌then◌else◌, some_inj, lt-length,
}
use wsharp.Runtime.Header.{header_size}
use wsharp.Runtime.Transfer.{Object, Memory}
use wsharp.Runtime.Transfer.Bytes.{word_at}
use wsharp.Runtime.Transfer.Slots.{IsOutside, AllApart, AllWords}
use wsharp.Runtime.Transfer.Codes.{IsCode}
use wsharp.Runtime.Transfer.Sent.{IsSound, IsSound-AllWithin, AllWords-map, IsCoded}
use wsharp.Runtime.Transfer.Encode.{IsSent}
use wsharp.Runtime.Transfer.Make.{IsReadable, slots_of}
use wsharp.Runtime.Transfer.Link.{IsTarget, IsLinked, IsLinkedWord}
use wsharp.Runtime.Types.{TypeInfo, Registry, info, has_variable_size, for_each_ptr_offset}
use wsharp.Runtime.Types.Visits.{IsLayout, of_fields, of_elements, AllWithin}

-- Two pointers that are null both, or to objects with one place.
abbrev pub IsTwinPointer : (ℕ → ℕ) → List ℕ → List ℕ → ℕ → ℕ → Type 0
IsTwinPointer resolve from to field p =
    ((field ≡ 0) × (p ≡ 0))
    ⊎ ((field ≢ 0)
        × (n : ℕ) × (get_elem? from n ≡ some (resolve field))
        × (get_elem? to n ≡ some p))

-- An object and its copy: the bytes that the type says are equal outside the pointers.
pub record IsTwin (types : Registry) (resolve : ℕ → ℕ) (mem : Memory) (from to : List ℕ)
    (o : Object) (s : IsSound types resolve mem o) (copy : Object) : Type 0 where
  pub same_type : copy.type_id ≡ o.type_id
  pub same_aux : copy.aux ≡ (if has_variable_size s.layout then o.aux else 0)
  pub room : s.size ≤ header_size + length copy.body
  pub bytes :
      (i : ℕ)
      → header_size + i < s.size
      → IsOutside i (for_each_ptr_offset o.aux s.layout)
      → get_elem? copy.body i ≡ get_elem? o.body i
  pub pointers :
      AllWords
        (λ k p. IsTwinPointer resolve from to (word_at o.body (k - header_size) 8) p)
        (for_each_ptr_offset o.aux s.layout)
        copy.body

IsCode-IsTarget :
    (resolve : ℕ → ℕ) (from to : List ℕ) (field code p : ℕ)
    → IsCode resolve from field code
    → IsTarget to code p
    → IsTwinPointer resolve from to field p
IsCode-IsTarget resolve from to field code p (inl (null, c)) (inl (d, n)) = inl (null, n)
IsCode-IsTarget resolve from to field code p (inl (null, c)) (inr (n, d, at)) =
    absurd (omega (arith, c, d))
IsCode-IsTarget resolve from to field code p (inr (there, n, at, c)) (inl (d, e)) =
    absurd (omega (arith, c, d))
IsCode-IsTarget resolve from to field code p (inr (there, n, at, c)) (inr (m, d, at')) =
    let same : m ≡ n = omega (arith, c, d) in inr (there, n, at, ap (get_elem? to) (sym same) ∙ at')

pointers_twin :
    (resolve : ℕ → ℕ) (from to slots old sent copy : List ℕ)
    → AllWords (IsCoded resolve from old) slots sent
    → AllWords (IsLinkedWord to sent) slots copy
    → AllWords (λ k p. IsTwinPointer resolve from to (word_at old (k - header_size) 8) p) slots copy
pointers_twin resolve from to [] old sent copy h g = tt
pointers_twin resolve from to (k ∷ slots) old sent copy (c, h) (t, g) = (
  IsCode-IsTarget resolve from to _ _ _ c t,
  pointers_twin resolve from to slots old sent copy h g,
)

-- The `aux` word of the message finds the same slots.
same_slots :
    (i : TypeInfo) (aux : ℕ)
    → IsLayout i
    → for_each_ptr_offset (if has_variable_size i then aux else 0) i ≡ for_each_ptr_offset aux i
unfolding for_each_ptr_offset
same_slots i aux (of_fields some_size no_stride h) =
    let stop : (i.elem_stride == 0) ≡ true = ground arith in rw stop refl
same_slots i aux (of_elements no_size no_ptrs h) =
    let variable : (i.size == 0) ≡ true = ground arith in rw variable refl

code_le :
    (resolve : ℕ → ℕ) (queue : List ℕ) (field code : ℕ)
    → IsCode resolve queue field code
    → code ≤ length queue
code_le resolve queue field code (inl (null, c)) = omega (arith, c)
code_le resolve queue field code (inr (there, n, at, c)) =
    omega (arith, c, lt-length queue n (resolve field) at)

module _ (types : Registry) (resolve : ℕ → ℕ) (mem : Memory) where
  sent_slots :
      (queue : List ℕ) (o : Object) (s : IsSound types resolve mem o) (x : Object)
      → IsSent types resolve mem queue o s x
      → for_each_ptr_offset o.aux s.layout ≡ for_each_ptr_offset x.aux s.layout
  sent_slots queue o s x t =
      sym (ap (λ a. for_each_ptr_offset a s.layout) t.same_aux ∙ same_slots s.layout o.aux s.shape)

  -- What is sent can be read.
  pub IsSent-IsReadable :
      (queue : List ℕ) (o : Object) (s : IsSound types resolve mem o) (x : Object)
      → IsSent types resolve mem queue o s x
      → IsReadable types (length queue) x
  IsSent-IsReadable queue o s x t =
      let slots = sent_slots queue o s x t in
      record {
        layout = s.layout;
        known = ap (λ id. info id types) t.same_type ∙ s.known;
        within =
            subst (λ n. AllWithin header_size n (for_each_ptr_offset x.aux s.layout)) (sym t.size)
              (subst (AllWithin header_size s.size) slots
                (IsSound-AllWithin types resolve mem o s));
        apart = subst AllApart slots s.apart;
        small = omega (arith, s.small, t.size);
        codes =
            subst (λ ss. AllWords (λ k c. c ≤ length queue) ss x.body) slots
              (AllWords-map (IsCoded resolve queue o.body) (λ k c. c ≤ length queue) _ x.body
                (λ k v c. code_le resolve queue _ v c) t.codes);
      }

  -- What is sent and then built is a copy.
  pub IsLinked-IsTwin :
      (from to : List ℕ) (o : Object) (s : IsSound types resolve mem o) (x final : Object)
      (count : ℕ) (r : IsReadable types count x)
      → IsSent types resolve mem from o s x
      → IsLinked (slots_of types count x r) to x final
      → IsTwin types resolve mem from to o s final
  IsLinked-IsTwin from to o s x final count r t l =
      let layout : r.layout ≡ s.layout =
        some_inj r.layout s.layout
          (sym r.known ∙ (ap (λ id. info id types) t.same_type ∙ s.known)) in
      let slots = ap (for_each_ptr_offset x.aux) layout ∙ sym (sent_slots from o s x t) in
      let l' = subst (λ ss. IsLinked ss to x final) slots l in
      record {
        same_type = l'.same_type ∙ t.same_type;
        same_aux = l'.same_aux ∙ t.same_aux;
        room = omega (arith, t.size, l'.room);
        bytes = λ i low out. l'.bytes i (omega (arith, low, t.size)) out ∙ t.bytes i low out;
        pointers = pointers_twin resolve from to _ o.body x.body final.body t.codes l'.targets;
      }
