-- ===== src/Runtime/Heap/Lines/Crowd.antt =====
-- How many objects a line of a space has, crates/wsharp-runtime/src/heap.rs.
use wsharp.Prelude.{
  ℕ, zero, suc, ◌+◌, ◌-◌, ◌*◌, ◌/◌, ◌%◌, ◌≤◌, ◌<◌, ◌≡◌, ◌⊎◌, refl, sym, ◌∙◌, ap, Bool, true, false,
  ◌&&◌, inl, inr, List, [], ◌∷◌, arith, ltb, leb, Bool-cases,
}
use wsharp.Runtime.Heap.Lines.Objects.{Object, touches, touching}

-- An object of whole granules of 16 bytes, and one that shares no byte with it.
pub record IsAligned (base : ℕ) (o : Object) : Type 0 where
  pub at_base : base ≤ o.0
  pub starts : (o.0 - base) % 16 ≡ 0
  pub ends : o.1 % 16 ≡ 0
  pub some_byte : 16 ≤ o.1

abbrev pub Apart : Object → Object → Type 0
Apart o p = (o.0 + o.1 ≤ p.0) ⊎ (p.0 + p.1 ≤ o.0)

abbrev pub ApartFrom : Object → List Object → Type 0
ApartFrom o [] = Unit
ApartFrom o (p ∷ ps) = Apart o p × ApartFrom o ps

-- Aligned objects that share no byte.
abbrev pub AllAligned : ℕ → List Object → Type 0
AllAligned base [] = Unit
AllAligned base (o ∷ os) = IsAligned base o × ApartFrom o os × AllAligned base os

-- Whether an object has the first byte of a granule.
abbrev holds : ℕ → ℕ → Object → Bool
holds base g (addr, size) = leb (addr - base) (g * 16) && ltb (g * 16) (addr - base + size)

abbrev as_one : Bool → ℕ
as_one true = 1
as_one false = 0

abbrev holding : ℕ → ℕ → List Object → ℕ
holding base g [] = 0
holding base g (o ∷ os) = as_one (holds base g o) + holding base g os

none_holds :
    (base g : ℕ) (o p : Object)
    → base ≤ o.0
    → base ≤ p.0
    → Apart o p
    → holds base g o ≡ true
    → holds base g p ≡ false
none_holds base g (a, m) (b, n) h k (inl before) e = ground arith
none_holds base g (a, m) (b, n) h k (inr after) e = ground arith

none_holding :
    (base g : ℕ) (o : Object) (os : List Object)
    → base ≤ o.0
    → AllAligned base os
    → ApartFrom o os
    → holds base g o ≡ true
    → holding base g os ≡ 0
none_holding base g o [] h all apart e = refl
none_holding base g o (p ∷ ps) h (al, from, all) (a, apart) e =
    rw (none_holds base g o p h al.at_base a e)
      (omega (arith, none_holding base g o ps h all apart e))

-- No two objects have one granule.
holding_le_one : (base g : ℕ) (objs : List Object) → AllAligned base objs → holding base g objs ≤ 1
holding_le_one base g [] h = omega arith
holding_le_one base g (o ∷ os) (al, from, all) = elim (Bool-cases (holds base g o)) [
  | inl e ↦ rw e (omega (arith, none_holding base g o os al.at_base all from e))
  | inr e ↦ rw e (omega (arith, holding_le_one base g os all))
]

-- Over `n` granules from `g` on.
abbrev granules_held : ℕ → ℕ → ℕ → Object → ℕ
granules_held base g zero o = 0
granules_held base g (suc n) o = as_one (holds base g o) + granules_held base (g + 1) n o

abbrev granules_holding : ℕ → ℕ → ℕ → List Object → ℕ
granules_holding base g zero objs = 0
granules_holding base g (suc n) objs = holding base g objs + granules_holding base (g + 1) n objs

granules_holding_nil : (base g n : ℕ) → granules_holding base g n [] ≡ 0
granules_holding_nil base g zero = refl
granules_holding_nil base g (suc n) = omega (arith, granules_holding_nil base (g + 1) n)

granules_holding_cons :
    (base g n : ℕ) (o : Object) (os : List Object)
    → granules_holding base g n (o ∷ os) ≡ granules_held base g n o + granules_holding base g n os
granules_holding_cons base g zero o os = omega arith
granules_holding_cons base g (suc n) o os = omega (arith, granules_holding_cons base (g + 1) n o os)

granules_holding_le :
    (base g n : ℕ) (objs : List Object) → AllAligned base objs → granules_holding base g n objs ≤ n
granules_holding_le base g zero objs h = omega arith
granules_holding_le base g (suc n) objs h =
    omega (arith, holding_le_one base g objs h, granules_holding_le base (g + 1) n objs h)

held_some :
    (base g n k : ℕ) (o : Object)
    → k < n
    → holds base (g + k) o ≡ true
    → 1 ≤ granules_held base g n o
held_some base g zero k o h e = absurd (omega arith)
held_some base g (suc n) zero o h e =
    let whole : g + 0 ≡ g = omega arith in
    let here : holds base g o ≡ true = sym (ap (λ x. holds base x o) whole) ∙ e in
    rw here (omega arith)
held_some base g (suc n) (suc k) o h e =
    let next : g + suc k ≡ g + 1 + k = omega arith in
    let later =
      held_some base (g + 1) n k o (omega arith) (sym (ap (λ x. holds base x o) next) ∙ e) in
    omega (arith, later)

-- An object on a line has one of the line's 16 granules.
touches_held :
    (base line : ℕ) (o : Object)
    → IsAligned base o
    → touches base line o ≡ true
    → 1 ≤ granules_held base (line * 16) 16 o
touches_held base line (addr, size) al e = elim (Bool-cases (leb (addr - base) (line * 256))) [
  | inl before ↦
      let inside_it : holds base (line * 16 + 0) (addr, size) ≡ true =
        let h = al.at_base in let s = al.some_byte in ground arith in
      held_some base (line * 16) 16 0 (addr, size) (omega arith) inside_it
  | inr after ↦
      let k = (addr - base) / 16 - line * 16 in
      let small : k < 16 = ground arith in
      let inside_it : holds base (line * 16 + k) (addr, size) ≡ true =
        let a = al.starts in let s = al.some_byte in ground arith in
      held_some base (line * 16) 16 k (addr, size) small inside_it
]

touching_le_holding :
    (base line : ℕ) (objs : List Object)
    → AllAligned base objs
    → touching base line objs ≤ granules_holding base (line * 16) 16 objs
touching_le_holding base line [] h = omega arith
touching_le_holding base line (o ∷ os) (al, from, all) =
    let later = touching_le_holding base line os all in
    let sum = granules_holding_cons base (line * 16) 16 o os in
    elim (Bool-cases (touches base line o)) [
      | inl e ↦ rw e (omega (arith, later, sum, touches_held base line o al e))
      | inr e ↦ rw e (omega (arith, later, sum))
    ]

-- A line has at most 16 aligned objects that share no byte.
pub touching_le_16 :
    (base line : ℕ) (objs : List Object) → AllAligned base objs → touching base line objs ≤ 16
touching_le_16 base line objs h =
    omega
      (arith, touching_le_holding base line objs h, granules_holding_le base (line * 16) 16 objs h)
