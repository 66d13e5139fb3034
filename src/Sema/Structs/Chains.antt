-- ===== src/Sema/Structs/Chains.antt =====
-- Chains of parents, for `is_subtype` and `set_struct_parent` of crates/wsharp-sema/src/ty.rs.
use wsharp.Prelude.{
  ℕ, zero, suc, ◌≤◌, ◌≡◌, ◌≢◌, refl, sym, ◌∙◌, ◌⊎◌, inl, inr, Bool, true, false, Option, none, some,
  List, arith, ◌==◌, ==→≡, ==→≢, Bool-cases, get_elem?, set, lt-length, get_elem?-set_self,
  get_elem?-set_ne, subst,
}
use wsharp.Sema.Store.{TypeStore, Run, ok}
use wsharp.Sema.Structs.{subtype_loop, is_subtype, set_struct_parent}

-- `a` is `c` or inherits from it.
pub data Inherits (parents : List (Option ℕ)) : ℕ → ℕ → Type 0 where
  itself : (a : ℕ) → Inherits parents a a
  above :
      (a b c : ℕ)
      → get_elem? parents a ≡ some (some b)
      → Inherits parents b c
      → Inherits parents a c

-- The chain from a struct, or from none, ends within `n` structs.
abbrev pub Ends : List (Option ℕ) → ℕ → Option ℕ → Type 0
Ends parents n none = Unit
Ends parents zero (some id) = ⊥
Ends parents (suc n) (some id) = (p : Option ℕ) × (get_elem? parents id ≡ some p) × Ends parents n p

-- Nothing is below no struct.
abbrev Under : List (Option ℕ) → ℕ → Option ℕ → Type 0
Under parents sup none = ⊥
Under parents sup (some id) = Inherits parents id sup

Inherits-cases :
    (parents : List (Option ℕ)) (a c : ℕ) (p : Option ℕ)
    → get_elem? parents a ≡ some p
    → Inherits parents a c
    → (a ≡ c) ⊎ Under parents c p
Inherits-cases parents a c p e (itself _) = inl refl
Inherits-cases parents a c p e (above _ b _ e' h) = let same : p ≡ some b = cc in inr (rw same h)

-- The answer of the loop, and what it says.
abbrev Decides : List (Option ℕ) → ℕ → Option ℕ → Run Bool → Type 0
Decides parents sup cur r =
    (r ≡ ok true) × Under parents sup cur ⊎ (r ≡ ok false) × ¬ Under parents sup cur

subtype_loop_total :
    (n f : ℕ) (parents : List (Option ℕ)) (sup : ℕ) (cur : Option ℕ)
    → n ≤ f
    → Ends parents n cur
    → Decides parents sup cur (subtype_loop f parents sup cur)
unfolding subtype_loop
subtype_loop_total n f parents sup none le w = inr (refl, λ u. u)
subtype_loop_total zero f parents sup (some id) le w = absurd w
subtype_loop_total (suc n) zero parents sup (some id) le w = absurd (omega arith)
subtype_loop_total (suc n) (suc f) parents sup (some id) le (p, e, w) =
    of_test (Bool-cases (id == sup)) (subtype_loop_total n f parents sup p (omega arith) w)
  where
    of_test :
        ((id == sup) ≡ true) ⊎ ((id == sup) ≡ false)
        → Decides parents sup p (subtype_loop f parents sup p)
        → Decides parents sup (some id) (subtype_loop (suc f) parents sup (some id))
    of_test (inl hit) r =
        let same = ==→≡ id sup hit in
        inl (rw hit refl, subst (λ x. Inherits parents id x) same (itself id))
    of_test (inr miss) (inl (r, u)) = inl (rw (miss, e) r, climb p e u)
      where
        climb :
            (p : Option ℕ)
            → get_elem? parents id ≡ some p
            → Under parents sup p
            → Inherits parents id sup
        climb none e u = absurd u
        climb (some b) e u = above id b sup e u
    of_test (inr miss) (inr (r, u)) = inr (
      rw (miss, e) r,
      λ h. elim (Inherits-cases parents id sup p e h) [
        | inl same ↦ ==→≢ id sup miss same
        | inr up ↦ u up
      ],
    )

-- With fuel for a chain that ends, `is_subtype` returns `true` if the one struct is the other or
-- inherits from it, and `false` if not.
pub is_subtype_total :
    (n f : ℕ) (s : TypeStore) (sub sup : ℕ)
    → n ≤ f
    → Ends s.struct_parents n (some sub)
    → (is_subtype f sub sup s ≡ ok true) × Inherits s.struct_parents sub sup
      ⊎ (is_subtype f sub sup s ≡ ok false) × ¬ Inherits s.struct_parents sub sup
unfolding is_subtype
is_subtype_total n f s sub sup le w = subtype_loop_total n f s.struct_parents sup (some sub) le w

module _ (parents : List (Option ℕ)) (id parent : ℕ) (old : Option ℕ)
    (there : get_elem? parents id ≡ some old) where
  abbrev changed : List (Option ℕ)
  changed = set parents id (some parent)

  -- A chain that does not meet `id` stays as it is.
  apart_Ends :
      (n : ℕ) (cur : Option ℕ) → ¬ Under parents id cur → Ends parents n cur → Ends changed n cur
  apart_Ends n none u w = tt
  apart_Ends zero (some a) u w = absurd w
  apart_Ends (suc n) (some a) u (p, e, w) =
      let miss : id ≢ a = λ same. u (subst (λ x. Inherits parents a x) (sym same) (itself a)) in
      (
        p,
        get_elem?-set_ne parents (some parent) miss ∙ e,
        apart_Ends n p (λ up. u (climb p e up)) w,
      )
    where
      climb :
          (p : Option ℕ) → get_elem? parents a ≡ some p → Under parents id p → Inherits parents a id
      climb none e up = absurd up
      climb (some b) e up = above a b id e up

  -- Any other chain goes to `id` and on to its new parent.
  every_Ends :
      (m : ℕ)
      → Ends changed m (some parent)
      → (n : ℕ) (cur : Option ℕ) → Ends parents n cur
      → (k : ℕ) × Ends changed k cur
  every_Ends m new n none w = (0, tt)
  every_Ends m new zero (some a) w = absurd w
  every_Ends m new (suc n) (some a) (p, e, w) =
      let (k, later) = every_Ends m new n p w in
      elim (Bool-cases (id == a)) [
        | inl hit ↦
            let same = ==→≡ id a hit in
            (
              suc m,
              (
                some parent,
                rw (← same)
                    (get_elem?-set_self parents id (some parent) (lt-length parents id old there)),
                new,
              ),
            )
        | inr miss ↦
            (suc k, (p, get_elem?-set_ne parents (some parent) (==→≢ id a miss) ∙ e, later))
      ]

-- `is_subtype` returns with this fuel whatever the second struct is, with `true` if the one struct is
-- the other or inherits from it and with `false` if not.
abbrev pub Answers : ℕ → ℕ → TypeStore → Type 0
Answers f sub s =
    (sup : ℕ)
    → (is_subtype f sub sup s ≡ ok true) × Inherits s.struct_parents sub sup
      ⊎ (is_subtype f sub sup s ≡ ok false) × ¬ Inherits s.struct_parents sub sup

-- A struct that is there gets a parent whose own chain ends and which does not inherit from it: the
-- write succeeds, the struct's parent is then the one that was given, every other struct has the
-- parent that it had, and nothing else of the store changes. Every chain that ended has an end
-- again, so that with some fuel `is_subtype` returns on it, with `true` if the one struct is the other
-- or inherits from it in the new store, and with `false` if not; in particular the struct inherits
-- from the parent, and `is_subtype` says so.
pub set_struct_parent-Ends :
    (s : TypeStore) (id parent : ℕ) (old : Option ℕ) (m : ℕ)
    → get_elem? s.struct_parents id ≡ some old
    → Ends s.struct_parents m (some parent)
    → ¬ Inherits s.struct_parents parent id
    → (t : TypeStore) × (set_struct_parent id parent s ≡ ok t)
      × (get_elem? t.struct_parents id ≡ some (some parent))
      × ((a : ℕ) → id ≢ a → get_elem? t.struct_parents a ≡ get_elem? s.struct_parents a)
      × (t ≡ record s { struct_parents = t.struct_parents })
      × ((n a : ℕ)
          → Ends s.struct_parents n (some a)
          → (k : ℕ) × Ends t.struct_parents k (some a) × Answers k a t)
      × ((k : ℕ) × (is_subtype k id parent t ≡ ok true))
unfolding set_struct_parent
set_struct_parent-Ends s id parent old m there ends apart =
    let parents = s.struct_parents in
    let new = apart_Ends parents id parent old there m (some parent) apart ends in
    let after = set parents id (some parent) in
    let t : TypeStore = record s { struct_parents = after } in
    let now = get_elem?-set_self parents id (some parent) (lt-length parents id old there) in
    let whole : Ends after (suc m) (some id) = (some parent, now, new) in
    (
      t,
      rw there refl,
      now,
      λ a apart. get_elem?-set_ne parents (some parent) apart,
      refl,
      λ n a w.
          let (k, later) = every_Ends parents id parent old there m new n (some a) w in
          (k, later, λ sup. is_subtype_total k k t a sup (omega arith) later),
      (
        suc m,
        elim (is_subtype_total (suc m) (suc m) t id parent (omega arith) whole) [
          | inl (e, h) ↦ e
          | inr (e, h) ↦ absurd (h (above id parent parent now (itself parent)))
        ],
      ),
    )
