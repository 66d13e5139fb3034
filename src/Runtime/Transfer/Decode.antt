-- ===== src/Runtime/Transfer/Decode.antt =====
-- For the second pass of `decode` over all objects, crates/wsharp-runtime/src/transfer.rs.
use wsharp.Prelude.{
  ℕ, zero, suc, ◌≡◌, ◌≢◌, refl, sym, ◌∙◌, ap, some, List, [], ◌∷◌, arith, length, get_elem?,
  some_inj,
}
use wsharp.Prelude.Run.{Run, ok}
use wsharp.Runtime.Memory.{object_at, put_object, object_at-put_self, object_at-put_ne}
use wsharp.Runtime.Transfer.{Object, Wire, Memory, linked, link_all}
use wsharp.Runtime.Transfer.Make.{IsReadable, IsMadeAt, AllDistinct, slots_of}
use wsharp.Runtime.Transfer.Link.{AllWord, IsLinked, linked-IsLinked}
use wsharp.Runtime.Types.{Registry, info}

-- An address is none of a list.
abbrev pub IsNoneOf : ℕ → List ℕ → Type 0
IsNoneOf q ps = (k p : ℕ) → get_elem? ps k ≡ some p → p ≢ q

-- A finished object for one of a message.
pub record IsLinkedAt (types : Registry) (made : List ℕ) (after : Memory) (p : ℕ) (x : Object)
    : Type 0 where
  pub readable : IsReadable types (length made) x
  pub object : Object
  pub at : object_at p after ≡ some object
  pub linked : IsLinked (slots_of types (length made) x readable) made x object

pub record IsAllLinked (types : Registry) (made : List ℕ) (os : Wire) (ps : List ℕ) (mem : Memory)
    (r : Run Memory) : Type 0 where
  pub after : Memory
  pub result : r ≡ ok after
  pub others : (q : ℕ) → IsNoneOf q ps → object_at q after ≡ object_at q mem
  pub objects :
      (k p : ℕ) (x : Object)
      → get_elem? ps k ≡ some p
      → get_elem? os k ≡ some x
      → IsLinkedAt types made after p x

abbrev pub AllMadeAt : Registry → ℕ → Wire → List ℕ → Memory → Type 0
AllMadeAt types count os ps mem =
    (k p : ℕ) (x : Object)
    → get_elem? ps k ≡ some p
    → get_elem? os k ≡ some x
    → IsMadeAt types count mem p x

module _ (types : Registry) (made : List ℕ) (small : AllWord made) where
  head_IsNoneOf : (p : ℕ) (ps : List ℕ) → AllDistinct (p ∷ ps) → IsNoneOf p ps
  head_IsNoneOf p ps d k q e same =
      let both = d 0 (suc k) q (ap some (sym same)) e in omega (arith, both)

  -- The others of the memory stay as they were made.
  AllMadeAt-put :
      (x final : Object) (os : Wire) (p : ℕ) (ps : List ℕ) (mem : Memory)
      → AllDistinct (p ∷ ps)
      → AllMadeAt types (length made) (x ∷ os) (p ∷ ps) mem
      → AllMadeAt types (length made) os ps (put_object p final mem)
  AllMadeAt-put x final os p ps mem d m k q y e f =
      let was = m (suc k) q y e f in
      let apart : p ≢ q = λ same. head_IsNoneOf p ps d k q e (sym same) in
      record {
        readable = was.readable;
        object = was.object;
        at = object_at-put_ne p q final mem apart ∙ was.at;
        made = was.made;
      }

  IsAllLinked-cons :
      (x final : Object) (os : Wire) (p : ℕ) (ps : List ℕ) (mem : Memory)
      → AllDistinct (p ∷ ps)
      → (was : IsMadeAt types (length made) mem p x)
      → linked types made x was.object (info x.type_id types) ≡ ok final
      → IsLinked (slots_of types (length made) x was.readable) made x final
      → IsAllLinked types made os ps
          (put_object p final mem)
          (link_all types made os ps (put_object p final mem))
      → IsAllLinked types made (x ∷ os) (p ∷ ps) mem (link_all types made (x ∷ os) (p ∷ ps) mem)
  unfolding link_all
  IsAllLinked-cons x final os p ps mem d was e is rest = record {
    after = rest.after;
    result = rw (was.at, e) rest.result;
    others =
        λ q h. rest.others q (λ k r e. h (suc k) r e) ∙ object_at-put_ne p q final mem (h 0 p refl);
    objects = objects;
  }
    where
      objects :
          (k q : ℕ) (y : Object)
          → get_elem? (p ∷ ps) k ≡ some q
          → get_elem? (x ∷ os) k ≡ some y
          → IsLinkedAt types made rest.after q y
      objects zero q y e f =
          rw (sym (some_inj p q e), sym (some_inj x y f))
            (record {
              readable = was.readable;
              object = final;
              at =
                  rest.others p (head_IsNoneOf p ps d)
                  ∙ object_at-put_self p final was.object mem was.at;
              linked = is;
            })
      objects (suc k) q y e f = rest.objects k q y e f

  pub link_all-IsAllLinked :
      (os : Wire) (ps : List ℕ) (mem : Memory)
      → length ps ≡ length os
      → AllDistinct ps
      → AllMadeAt types (length made) os ps mem
      → IsAllLinked types made os ps mem (link_all types made os ps mem)
  unfolding link_all
  link_all-IsAllLinked [] ps mem size d m = record {
    after = mem;
    result = refl;
    others = λ q h. refl;
    objects = λ k p x e f. absurd (cc);
  }
  link_all-IsAllLinked (x ∷ os) [] mem size d m = absurd (omega (arith, size))
  link_all-IsAllLinked (x ∷ os) (p ∷ ps) mem size d m =
      let was = m 0 p x refl refl in
      let (final, e, is) = linked-IsLinked types made x was.object was.readable small was.made in
      let rest =
        link_all-IsAllLinked os ps (put_object p final mem) (omega (arith, size))
          (λ j k q e f. let both = d (suc j) (suc k) q e f in omega (arith, both))
          (AllMadeAt-put x final os p ps mem d m) in
      IsAllLinked-cons x final os p ps mem d was e is rest
