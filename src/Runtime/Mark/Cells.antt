-- ===== src/Runtime/Mark/Cells.antt =====
-- What marking keeps of a heap, crates/wsharp-runtime/src/mark.rs.
use wsharp.Prelude.{
  ℕ, ◌+◌, ◌-◌, ◌*◌, ◌/◌, ◌%◌, ◌^◌, ◌<◌, ◌≡◌, refl, sym, ◌∙◌, ap, inl, inr, true, some, arith, ◌==◌,
  ==→≡, ==→≢, subst, some_inj, Bool-cases,
}
use wsharp.Runtime.Header.{
  type_id_of_meta, immortal, bit_of, test_flag, is_marked, claim_mark, marked_bit,
}
use wsharp.Runtime.Header.Marks.{IsParity, claim_mark-once, claim_mark-marked, claim_mark-unmarked}
use wsharp.Runtime.Memory.{object_at, put_object, object_at-put_self, object_at-put_ne}
use wsharp.Runtime.Types.{Registry, info}
use wsharp.Runtime.Mark.{Cell, Heap, offsets_by, offsets_of}

-- The header word without its mark.
abbrev pub unmarked : ℕ → ℕ
unmarked meta = meta - meta / marked_bit % 2 * marked_bit

-- The same object, but for its mark: the body and the aux word, and every other bit of the header word,
-- which holds the type id, the count of references and the flags.
pub record SameCell (c d : Cell) : Type 0 where
  pub body : d.body ≡ c.body
  pub aux : d.aux ≡ c.aux
  pub rest : unmarked d.meta ≡ unmarked c.meta
  pub type_id : type_id_of_meta d.meta ≡ type_id_of_meta c.meta
  pub flag : test_flag d.meta immortal ≡ test_flag c.meta immortal
  pub small : c.meta < 2 ^ 64 → d.meta < 2 ^ 64

pub SameCell-refl : (c : Cell) → SameCell c c
SameCell-refl c = record {
  body = refl;
  aux = refl;
  rest = refl;
  type_id = refl;
  flag = refl;
  small = λ h. h;
}

pub SameCell-trans : (c d e : Cell) → SameCell c d → SameCell d e → SameCell c e
SameCell-trans c d e s t = record {
  body = t.body ∙ s.body;
  aux = t.aux ∙ s.aux;
  rest = t.rest ∙ s.rest;
  type_id = t.type_id ∙ s.type_id;
  flag = t.flag ∙ s.flag;
  small = λ h. t.small (s.small h);
}

pub SameCell-offsets_of :
    (types : Registry) (c d : Cell) → SameCell c d → offsets_of types d ≡ offsets_of types c
SameCell-offsets_of types c d s =
    ap (λ a. offsets_by a (info (type_id_of_meta d.meta) types)) s.aux
    ∙ ap (λ t. offsets_by c.aux (info t types)) s.type_id

abbrev pub claimed_cell : ℕ → Cell → Cell
claimed_cell parity c = record c { meta = (claim_mark parity c.meta).0 }

claimed-flag :
    (parity meta : ℕ)
    → meta < 2 ^ 64
    → IsParity parity
    → (test_flag (claim_mark parity meta).0 immortal ≡ test_flag meta immortal)
      × ((claim_mark parity meta).0 < 2 ^ 64)
unfolding test_flag
claimed-flag parity meta h p = elim (Bool-cases (is_marked parity meta)) [
  | inl e ↦ rw (claim_mark-marked parity meta e) (refl, h)
  | inr e ↦ rw (claim_mark-unmarked parity meta e) (bit p, bound p)
]
  where
    bit :
        IsParity parity
        → (((meta - meta / marked_bit % 2 * marked_bit + parity) / bit_of immortal % 2) == 1)
          ≡ ((meta / bit_of immortal % 2) == 1)
    bit (inl z) = ap (λ n. n == 1) (omega (arith, z))
    bit (inr z) = ap (λ n. n == 1) (omega (arith, z))

    bound : IsParity parity → meta - meta / marked_bit % 2 * marked_bit + parity < 2 ^ 64
    bound (inl z) = omega (arith, z, h)
    bound (inr z) = omega (arith, z, h)

claimed-rest :
    (parity meta : ℕ) → IsParity parity → unmarked (claim_mark parity meta).0 ≡ unmarked meta
claimed-rest parity meta p = elim (Bool-cases (is_marked parity meta)) [
  | inl e ↦ rw (claim_mark-marked parity meta e) refl
  | inr e ↦ rw (claim_mark-unmarked parity meta e) (same p)
]
  where
    same : IsParity parity → unmarked (unmarked meta + parity) ≡ unmarked meta
    same (inl z) = omega (arith, z)
    same (inr z) = omega (arith, z)

-- A claim changes nothing but the mark.
pub claimed_cell-SameCell :
    (parity : ℕ) (c : Cell)
    → c.meta < 2 ^ 64
    → IsParity parity
    → SameCell c (claimed_cell parity c) × (is_marked parity (claimed_cell parity c).meta ≡ true)
claimed_cell-SameCell parity c h p =
    let once = claim_mark-once parity c.meta h p in
    let (flag, small) = claimed-flag parity c.meta h p in
    (
      record {
        body = refl;
        aux = refl;
        rest = claimed-rest parity c.meta p;
        type_id = once.4.0;
        flag = flag;
        small = λ k. small;
      },
      once.1,
    )

-- A heap and a later one, whose marks are more.
abbrev pub IsMarkedAt : ℕ → Heap → ℕ → Type 0
IsMarkedAt parity heap p =
    (c : Cell) × (object_at p heap ≡ some c) × (is_marked parity c.meta ≡ true)

abbrev pub MarkKept : ℕ → Cell → Cell → Type 0
MarkKept parity c d = is_marked parity c.meta ≡ true → is_marked parity d.meta ≡ true

pub record IsLater (parity : ℕ) (heap heap' : Heap) : Type 0 where
  pub forth :
      (p : ℕ) (c : Cell)
      → object_at p heap ≡ some c
      → (d : Cell) × (object_at p heap' ≡ some d) × SameCell c d × MarkKept parity c d
  pub back :
      (p : ℕ) (d : Cell)
      → object_at p heap' ≡ some d
      → (c : Cell) × (object_at p heap ≡ some c) × SameCell c d × MarkKept parity c d

pub IsLater-refl : (parity : ℕ) (heap : Heap) → IsLater parity heap heap
IsLater-refl parity heap = record {
  forth = λ p c e. (c, e, SameCell-refl c, λ h. h);
  back = λ p c e. (c, e, SameCell-refl c, λ h. h);
}

pub IsLater-trans :
    (parity : ℕ) (a b c : Heap) → IsLater parity a b → IsLater parity b c → IsLater parity a c
IsLater-trans parity a b c h k = record {
  forth = λ p x e.
      let (y, f, s, m) = h.forth p x e in
      let (z, g, t, n) = k.forth p y f in (z, g, SameCell-trans x y z s t, λ i. n (m i));
  back = λ p z g.
      let (y, f, t, n) = k.back p z g in
      let (x, e, s, m) = h.back p y f in (x, e, SameCell-trans x y z s t, λ i. n (m i));
}

-- A write of the same object with more marks.
pub put-IsLater :
    (parity : ℕ) (heap : Heap) (p : ℕ) (c d : Cell)
    → object_at p heap ≡ some c
    → SameCell c d
    → MarkKept parity c d
    → IsLater parity heap (put_object p d heap)
put-IsLater parity heap p c d at s m = record {
  forth = λ q x e. elim (Bool-cases (p == q)) [
    | inl hit ↦
        let same : p ≡ q = ==→≡ p q hit in
        let x_is : c ≡ x = some_inj c x (sym at ∙ (ap (λ a. object_at a heap) same ∙ e)) in
        (
          d,
          ap (λ a. object_at a (put_object p d heap)) (sym same) ∙ object_at-put_self p d c heap at,
          subst (λ y. SameCell y d) x_is s,
          subst (λ y. MarkKept parity y d) x_is m,
        )
    | inr miss ↦ (x, object_at-put_ne p q d heap (==→≢ p q miss) ∙ e, SameCell-refl x, λ h. h)
  ];
  back = λ q y e. elim (Bool-cases (p == q)) [
    | inl hit ↦
        let same : p ≡ q = ==→≡ p q hit in
        let here =
          sym (object_at-put_self p d c heap at)
          ∙ (ap (λ a. object_at a (put_object p d heap)) same ∙ e) in
        let y_is : d ≡ y = some_inj d y here in
        (
          c,
          ap (λ a. object_at a heap) (sym same) ∙ at,
          subst (SameCell c) y_is s,
          subst (MarkKept parity c) y_is m,
        )
    | inr miss ↦ (y, sym (object_at-put_ne p q d heap (==→≢ p q miss)) ∙ e, SameCell-refl y, λ h. h)
  ];
}
