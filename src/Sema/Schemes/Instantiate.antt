-- ===== src/Sema/Schemes/Instantiate.antt =====
-- For `instantiate` of crates/wsharp-sema/src/ty.rs, and the new variables that it makes.
use mathlib.Core.List.{append-nil, append_assoc}
use wsharp.Prelude.{
  ℕ, zero, suc, ◌+◌, ◌<◌, ◌≡◌, refl, sym, ◌∙◌, ap, subst, Option, none, some, List, [], ◌∷◌, ◌++◌,
  arith, get_elem?, length, replicate, length-append, Bool-cases, inl, inr,
}
use wsharp.Sema.Ty.{Ty, var, subst_ty}
use wsharp.Sema.Store.{Slot, unbound, TypeStore, ok, fresh, level_at}
use wsharp.Sema.Unify.Meaning.{deep, deep_slot, deep_slot_mono, deep_map}
use wsharp.Sema.Schemes.{contains, get_or_var, zip, fresh_err_set, fresh_for, instantiate}
use wsharp.Sema.Schemes.Replace.{subst_vars_total}

-- The variables from `n` on, one for each of `vs`.
abbrev pub vars_from : ℕ → List ℕ → List Ty
vars_from n [] = []
vars_from n (v ∷ vs) = var n ∷ vars_from (suc n) vs

-- `t` is `s` with new slots at the end.
record Grown (s t : TypeStore) (n : ℕ) : Type 0 where
  slots : t.slots ≡ s.slots ++ replicate n (unbound s.level)
  level : t.level ≡ s.level

get_elem?-append :
    {A : Type 0} (xs ys : List A) (i : ℕ) (x : A)
    → get_elem? xs i ≡ some x
    → get_elem? (xs ++ ys) i ≡ some x
get_elem?-append [] ys i x e = absurd (cc)
get_elem?-append (y ∷ xs) ys zero x e = e
get_elem?-append (y ∷ xs) ys (suc i) x e = get_elem?-append xs ys i x e

get_elem?-past :
    {A : Type 0} (xs ys : List A) (i : ℕ) → get_elem? (xs ++ ys) (length xs + i) ≡ get_elem? ys i
get_elem?-past [] ys i = let same : 0 + i ≡ i = omega arith in rw same refl
get_elem?-past (y ∷ xs) ys i =
    let same : suc (length xs) + i ≡ suc (length xs + i) = omega arith in
    rw same (get_elem?-past xs ys i)

get_elem?-replicate : {A : Type 0} (n i : ℕ) (x : A) → i < n → get_elem? (replicate n x) i ≡ some x
get_elem?-replicate zero i x lt = absurd (omega arith)
get_elem?-replicate (suc n) zero x lt = refl
get_elem?-replicate (suc n) (suc i) x lt = get_elem?-replicate n i x (omega arith)

grown_means :
    (slots more : List Slot) (h : ℕ) (t u : Ty)
    → deep slots h t ≡ some u
    → deep (slots ++ more) h t ≡ some u
unfolding deep
grown_means slots more zero t u e = absurd (cc)
grown_means slots more (suc h) t u e =
    let below = grown_means slots more h in
    deep_map slots (slots ++ more) h h below (λ v u' e'. at below v (get_elem? slots v) refl u' e')
      t u e
  where
    at :
        ((t' u' : Ty) → deep slots h t' ≡ some u' → deep (slots ++ more) h t' ≡ some u')
        → (v : ℕ) (o : Option Slot) → get_elem? slots v ≡ o
        → (u' : Ty) → deep_slot (deep slots h) v o ≡ some u'
        → deep_slot (deep (slots ++ more) h) v (get_elem? (slots ++ more) v) ≡ some u'
    at below v none eq u' e' = absurd (cc)
    at below v (some x) eq u' e' =
        rw (get_elem?-append slots more v x eq)
          (deep_slot_mono (deep slots h) (deep (slots ++ more) h) below v (some x) u' e')

-- One new variable, and then the others.
Grown-fresh :
    (s t r : TypeStore) (n : ℕ)
    → t.slots ≡ s.slots ++ unbound s.level ∷ []
    → t.level ≡ s.level
    → Grown t r n
    → Grown s r (suc n)
Grown-fresh s t r n e l g = record {
  slots =
      g.slots
      ∙ ap (λ k. t.slots ++ replicate n (unbound k)) l
      ∙ ap (λ xs. xs ++ replicate n (unbound s.level)) e
      ∙ append_assoc s.slots (unbound s.level ∷ []) (replicate n (unbound s.level));
  level = g.level ∙ l;
}

fresh_for_lem :
    (vs : List ℕ) (s : TypeStore)
    → ((fresh_for vs s).0 ≡ vars_from (length s.slots) vs) × Grown s (fresh_for vs s).1 (length vs)
unfolding fresh_for fresh fresh_err_set
fresh_for_lem [] s = (refl, record { slots = sym (append-nil s.slots); level = refl })
fresh_for_lem (v ∷ vs) s = elim (Bool-cases (contains v s.err_set_vars)) [
  | inl e ↦ rw e (next (fresh_err_set s).1 refl refl (fresh_for_lem vs (fresh_err_set s).1))
  | inr e ↦ rw e (next (fresh s).1 refl refl (fresh_for_lem vs (fresh s).1))
]
  where
    next :
        (t : TypeStore)
        → t.slots ≡ s.slots ++ unbound s.level ∷ []
        → t.level ≡ s.level
        → ((fresh_for vs t).0 ≡ vars_from (length t.slots) vs)
          × Grown t (fresh_for vs t).1 (length vs)
        → (var (length s.slots) ∷ (fresh_for vs t).0 ≡ vars_from (length s.slots) (v ∷ vs))
          × Grown s (fresh_for vs t).1 (suc (length vs))
    next t e l (same, g) =
        let more : length t.slots ≡ suc (length s.slots) =
          ap length e ∙ length-append s.slots (unbound s.level ∷ []) ∙ omega arith in
        (
          ap (◌∷◌ (var (length s.slots))) (same ∙ ap (λ n. vars_from n vs) more),
          Grown-fresh s t (fresh_for vs t).1 (length vs) e l g,
        )

-- The level of an unbound variable decides its slot.
unbound_at :
    (o : Option Slot) (l l' : ℕ) → o ≡ some (unbound l') → level_at o ≡ l → o ≡ some (unbound l)
unbound_at o l l' e n = let same : l' ≡ l = cc in e ∙ ap (λ k. some (unbound k)) same

-- With fuel above the depth of a scheme's type, which the store gives a meaning, an instance of a
-- scheme that quantifies something is the meaning with a new variable for each quantified one. The
-- new variables are returned in the scheme's order; each is unbound and has the store's level. Every
-- type keeps its meaning.
pub instantiate_total :
    (h : ℕ) (s : TypeStore) (v : ℕ) (vs : List ℕ) (t u : Ty)
    → deep s.slots h t ≡ some u
    → let fs = vars_from (length s.slots) (v ∷ vs) in
      let n = length (v ∷ vs) in
      (store : TypeStore) × ((f : ℕ)
        → h < f
        → instantiate f (record { vars = v ∷ vs; ty = t }) s
          ≡ ok ((subst_ty (get_or_var (zip (v ∷ vs) fs)) u, fs), store))
      × ((i : ℕ) → i < n → get_elem? store.slots (length s.slots + i) ≡ some (unbound s.level))
      × ((k : ℕ) (a w : Ty) → deep s.slots k a ≡ some w → deep store.slots k a ≡ some w)
unfolding instantiate
instantiate_total h s v vs t u e =
    let (same, g) = fresh_for_lem (v ∷ vs) s in
    let s' = (fresh_for (v ∷ vs) s).1 in
    let grown = λ (k : ℕ) (a w : Ty) (m : deep s.slots k a ≡ some w).
      let m' = grown_means s.slots (replicate (length (v ∷ vs)) (unbound s.level)) k a w m in
      subst (λ slots. deep slots k a ≡ some w) (sym g.slots) m' in
    let r = subst_vars_total h (zip (v ∷ vs) (fresh_for (v ∷ vs) s).0) s' t u (grown h t u e) in
    (
      r.store,
      λ f lt.
          rw (r.runs f lt)
            (ap (λ fs. ok ((subst_ty (get_or_var (zip (v ∷ vs) fs)) u, fs), r.store)) same),
      λ i lt.
          let there =
            get_elem?-past s.slots (replicate (length (v ∷ vs)) (unbound s.level)) i
            ∙ get_elem?-replicate (length (v ∷ vs)) i (unbound s.level) lt in
          let now : get_elem? s'.slots (length s.slots + i) ≡ some (unbound s.level) =
            ap (λ slots. get_elem? slots (length s.slots + i)) g.slots ∙ there in
          let (l', at, le) = r.walked.keeps.stays (length s.slots + i) s.level now in
          unbound_at _ s.level l' at (r.walked.levels (length s.slots + i) ∙ ap level_at now),
      λ k a w m. r.walked.keeps.means k a w (grown k a w m),
    )
