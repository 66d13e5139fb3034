-- ===== src/Runtime/Mark/Rounds.antt =====
-- For one visit of `mark_all`, crates/wsharp-runtime/src/mark.rs.
use wsharp.Prelude.{
  ℕ, suc, ◌+◌, ◌-◌, ◌≡◌, refl, sym, ◌⊎◌, inl, inr, Bool, true, false, some, List, ◌∷◌, subst,
}
use wsharp.Runtime.Header.{header_size, is_marked}
use wsharp.Runtime.Header.Marks.{IsParity}
use wsharp.Runtime.Memory.{object_at}
use wsharp.Runtime.Types.{Registry}
use wsharp.Runtime.Transfer.Bytes.{word_at}
use wsharp.Runtime.Mark.{Cell, Heap, Marker, offsets_of}
use wsharp.Runtime.Mark.Fields.{IsIn, IsIn-cons, IsCollectable}
use wsharp.Runtime.Mark.Cells.{IsMarkedAt, IsLater, IsLater-trans}
use wsharp.Runtime.Mark.Reached.{AllTraceable, IsReachable}

-- The setting of a trace: the types, the parity, and the heap and the roots that it began with.
module _ (types : Registry) (parity : ℕ) (evacuating : ℕ → Bool) (heap : Heap) (roots : List ℕ)
    (is_parity : IsParity parity) (traceable : AllTraceable types heap)
    (there : (p : ℕ) → IsIn p roots → (c : Cell) × (object_at p heap ≡ some c)) where
  -- A field of an object that this trace marked.
  pub record IsMarkedField (now : Heap) (p s q : ℕ) : Type 0 where
    pub cell : Cell
    pub at : object_at p heap ≡ some cell
    pub before : is_marked parity cell.meta ≡ false
    pub after : IsMarkedAt parity now p
    pub offset : IsIn s (offsets_of types cell)
    pub word : word_at cell.body (s - header_size) 8 ≡ q
    pub ours : IsCollectable heap q

  -- What is true between two visits: each root, and each field of an object that was marked, is marked or waits;
  -- and only what is reached is marked or waits.
  pub record IsTracing (now : Heap) (m : Marker) : Type 0 where
    pub later : IsLater parity heap now
    pub waiting : (q : ℕ) → IsIn q m.work → IsReachable types heap roots q
    pub marked :
        (q : ℕ) (c : Cell)
        → object_at q heap ≡ some c
        → IsMarkedAt parity now q
        → (is_marked parity c.meta ≡ true) ⊎ IsReachable types heap roots q
    pub from_roots : (q : ℕ) → IsIn q roots → IsMarkedAt parity now q ⊎ IsIn q m.work
    pub from_fields :
        (p s q : ℕ) → IsMarkedField now p s q → IsMarkedAt parity now q ⊎ IsIn q m.work
    pub noted :
        (p s q : ℕ) → IsMarkedField now p s q → evacuating q ≡ true → IsIn (p + s) m.remembered

  -- The visit of `p`, as it changes the heap and the work list.
  pub record IsVisit (p : ℕ) (work : List ℕ) (m : Marker) (now next : Heap) (m' : Marker)
      : Type 0 where
    pub step : IsLater parity now next
    pub here : IsMarkedAt parity next p
    pub others : (q : ℕ) → IsMarkedAt parity next q → IsMarkedAt parity now q ⊎ (q ≡ p)
    pub kept : (q : ℕ) → IsIn q work → IsIn q m'.work
    pub still : (a : ℕ) → IsIn a m.remembered → IsIn a m'.remembered
    pub only : (q : ℕ) → IsIn q m'.work → IsIn q work ⊎ IsReachable types heap roots q
    pub pushed :
        (s q : ℕ)
        → IsMarkedField next p s q
        → IsMarkedField now p s q
          ⊎ (IsIn q m'.work × (evacuating q ≡ true → IsIn (p + s) m'.remembered))

  IsMarkedAt-later :
      (now next : Heap) (q : ℕ)
      → IsLater parity now next
      → IsMarkedAt parity now q
      → IsMarkedAt parity next q
  IsMarkedAt-later now next q h (c, at, m) = let (d, e, s, k) = h.forth q c at in (d, e, k m)

  -- What is marked or waits stays so.
  carried :
      (p : ℕ) (work : List ℕ) (m m' : Marker) (now next : Heap)
      → IsVisit p work m now next m'
      → (q : ℕ) → IsMarkedAt parity now q ⊎ IsIn q (p ∷ work)
      → IsMarkedAt parity next q ⊎ IsIn q m'.work
  carried p work m m' now next v q (inl h) = inl (IsMarkedAt-later now next q v.step h)
  carried p work m m' now next v q (inr h) = elim (IsIn-cons q p work h) [
    | inl same ↦ inl (subst (IsMarkedAt parity next) (sym same) v.here)
    | inr later ↦ inr (v.kept q later)
  ]

  before_field :
      (p : ℕ) (work : List ℕ) (m m' : Marker) (now next : Heap)
      → IsVisit p work m now next m'
      → (r s q : ℕ) → IsMarkedField next r s q
      → IsMarkedField now r s q
        ⊎ (IsIn q m'.work × (evacuating q ≡ true → IsIn (r + s) m'.remembered))
  before_field p work m m' now next v r s q f = elim (v.others r f.after) [
    | inl old ↦ inl (record {
      cell = f.cell;
      at = f.at;
      before = f.before;
      after = old;
      offset = f.offset;
      word = f.word;
      ours = f.ours;
    })
    | inr same ↦
        subst
          (λ a.
            IsMarkedField next a s q
            → IsMarkedField now a s q
              ⊎ (IsIn q m'.work × (evacuating q ≡ true → IsIn (a + s) m'.remembered)))
          (sym same) (v.pushed s q) f
  ]

  -- A visit keeps what is true between two.
  pub IsVisit-IsTracing :
      (p : ℕ) (work : List ℕ) (m m' : Marker) (now next : Heap)
      → m.work ≡ p ∷ work
      → IsTracing now m
      → IsVisit p work m now next m'
      → IsTracing next m'
  IsVisit-IsTracing p work m m' now next is t v = record {
    later = IsLater-trans parity heap now next t.later v.step;
    waiting = λ q h. elim (v.only q h) [
      | inl old ↦ t.waiting q (subst (IsIn q) (sym is) (IsIn-later q p work old))
      | inr reached ↦ reached
    ];
    marked = λ q c at h. elim (v.others q h) [
      | inl old ↦ t.marked q c at old
      | inr same ↦ inr (
          t.waiting q
            (subst (IsIn q) (sym is) (subst (λ a. IsIn a (p ∷ work)) (sym same) (0, refl))))
    ];
    from_roots = λ q h.
        carried p work m m' now next v q
          (subst (λ w. IsMarkedAt parity now q ⊎ IsIn q w) is (t.from_roots q h));
    from_fields = λ r s q f. elim (before_field p work m m' now next v r s q f) [
      | inl old ↦
          carried p work m m' now next v q
            (subst (λ w. IsMarkedAt parity now q ⊎ IsIn q w) is (t.from_fields r s q old))
      | inr (new, noted) ↦ inr new
    ];
    noted = λ r s q f e. elim (before_field p work m m' now next v r s q f) [
      | inl old ↦ v.still (r + s) (t.noted r s q old e)
      | inr (new, noted) ↦ noted e
    ];
  }
    where
      IsIn-later : (q x : ℕ) (xs : List ℕ) → IsIn q xs → IsIn q (x ∷ xs)
      IsIn-later q x xs (k, e) = (suc k, e)
