-- ===== src/Sema/Unify/Correct.antt =====
-- For `unify` of crates/wsharp-sema/src/ty.rs.
use wsharp.Prelude.{
  ℕ, zero, suc, ◌+◌, ◌≤◌, ◌<◌, ◌≡◌, refl, ◌≢◌, sym, ◌∙◌, ap, ◌⊎◌, inl, inr, true, Option, some,
  List, arith, get_elem?, ◌==◌, Bool-cases, ==→≡, ==→≢,
}
use wsharp.Sema.Ty.{
  Ty, TyCon, TyCon-discrete, Args, var, con, nil, cons, count_args, has_var, subst_ty, subst_args,
  size, size_args,
}
use wsharp.Sema.Ty.Subst.{occurs_no_unifier, count-subst_args, size_pos}
use wsharp.Sema.Store.{Slot, unbound, TypeStore}
use wsharp.Sema.Unify.{done, mismatch, unify, unify_roots, unify_args, unify_cons, bind}
use wsharp.Sema.Unify.Meaning.{deep, deep-unbound, deep-con, deep_args, deep_args-cons, open_count}
use wsharp.Sema.Unify.Resolve.{Keeps-trans, IsRoot, IsRoot-Keeps, resolve_total}
use wsharp.Sema.Unify.Outcome.{Post-Keeps, Outcome, Outcome-iff, Outcome-bind, Solved-same}
use wsharp.Sema.Unify.Arguments.{Unifies, UnifiesArgs, Right, RightBelow, args_right}

abbrev RootsOutcome : TypeStore → Ty → Ty → Ty → Ty → Type 0
RootsOutcome s a b a' b' = Outcome (Unifies a' b') s (λ f. unify_roots (unify f) (bind f) a b s)

var_means :
    (slots : List Slot) (h x l : ℕ) (u : Ty)
    → get_elem? slots x ≡ some (unbound l)
    → deep slots (suc h) (var x) ≡ some u
    → u ≡ var x
var_means slots h x l u at e = cc (deep-unbound slots h x l at)

-- A variable and another root.
roots_bind :
    (s : TypeStore) (h x l : ℕ) (t u : Ty)
    → get_elem? s.slots x ≡ some (unbound l)
    → deep s.slots h t ≡ some u
    → (has_var x u ≡ true → (τ : ℕ → Ty) → ¬ (τ x ≡ subst_ty τ u))
    → Outcome (Unifies (var x) u) s (λ f. bind f x t s)
unfolding subst_ty
roots_bind = Outcome-bind

roots_vars :
    (s : TypeStore) (h x y l m : ℕ)
    → get_elem? s.slots x ≡ some (unbound l)
    → get_elem? s.slots y ≡ some (unbound m)
    → RootsOutcome s (var x) (var y) (var x) (var y)
unfolding has_var
roots_vars s h x y l m at at' = elim (Bool-cases (x == y)) [
  | inl same ↦ record {
    result = done;
    store = s;
    fuel = 0;
    runs = λ f le. rw same refl;
    post = Solved-same s.slots (ap (λ v. subst_ty var (var v)) (==→≡ x y same));
  }
  | inr differ ↦
      let o =
        roots_bind s 1 x l (var y) (var y) at (deep-unbound s.slots 0 y m at')
          (λ found. absurd (==→≢ x y differ (sym (==→≡ y x found)))) in
      record {
        result = o.result;
        store = o.store;
        fuel = o.fuel;
        runs = λ f le. rw differ (o.runs f le);
        post = o.post;
      }
]

cons_apart :
    (c d : TyCon) (ts us : Args)
    → (c ≢ d) ⊎ (count_args ts ≢ count_args us)
    → (τ : ℕ → Ty) → ¬ Unifies (con c ts) (con d us) τ
unfolding subst_ty
cons_apart c d ts us (inl differ) τ e = differ (ground arith)
cons_apart c d ts us (inr differ) τ e =
    let same : subst_args τ ts ≡ subst_args τ us = ground arith in
    differ (sym (count-subst_args τ ts) ∙ (ap count_args same ∙ count-subst_args τ us))

module _ (c d : TyCon) (ts us : Args) (τ : ℕ → Ty) where
  con-Unifies : c ≡ d → UnifiesArgs ts us τ → Unifies (con c ts) (con d us) τ
  unfolding subst_ty
  con-Unifies same e = cc

  con-UnifiesArgs : Unifies (con c ts) (con d us) τ → UnifiesArgs ts us τ
  unfolding subst_ty
  con-UnifiesArgs e = ground arith

count-deep_args :
    (rec : Ty → Option Ty) (ts us : Args)
    → deep_args rec ts ≡ some us
    → count_args us ≡ count_args ts
count-deep_args rec nil us e = let same : us ≡ nil = ground arith in rw same refl
count-deep_args rec (cons a ts) us e =
    let (b, bs, same, ea, es) = deep_args-cons rec a ts us e in
    ap count_args same ∙ ap suc (count-deep_args rec ts bs es)

roots_cons :
    (k m : ℕ) (s : TypeStore) (h : ℕ) (c d : TyCon) (ts us ts' us' : Args)
    → RightBelow k m
    → open_count s.slots ≤ k
    → size_args ts' ≤ m
    → deep_args (deep s.slots h) ts ≡ some ts'
    → deep_args (deep s.slots h) us ≡ some us'
    → RootsOutcome s (con c ts) (con d us) (con c ts') (con d us')
roots_cons k m s h c d ts us ts' us' ih hk hm e e' = of_dec (TyCon-discrete c d)
  where
    apart : count_args ts ≢ count_args us → count_args ts' ≢ count_args us'
    apart = omega (
      arith,
      count-deep_args (deep s.slots h) ts ts' e,
      count-deep_args (deep s.slots h) us us' e',
    )

    of_dec :
        (r : Dec (c ≡ d))
        → Outcome (Unifies (con c ts') (con d us')) s (λ f. unify_cons (unify f) ts us r s)
    of_dec (no differ) = record {
      result = mismatch;
      store = s;
      fuel = 0;
      runs = λ f le. refl;
      post = cons_apart c d ts' us' (inl differ);
    }
    of_dec (yes same) = elim (Bool-cases (count_args ts == count_args us)) [
      | inl n ↦
          let o = args_right ts us k m ih s h ts' us' hk hm (==→≡ _ _ n) e e' in
          let o' : Outcome (Unifies (con c ts') (con d us')) s (λ f. unify_args (unify f) ts us s) =
            Outcome-iff (λ τ. con-Unifies c d ts' us' τ same) (con-UnifiesArgs c d ts' us') o in
          record {
            result = o'.result;
            store = o'.store;
            fuel = o'.fuel;
            runs = λ f le. rw n (o'.runs f le);
            post = o'.post;
          }
      | inr n ↦ record {
        result = mismatch;
        store = s;
        fuel = 0;
        runs = λ f le. rw n refl;
        post = cons_apart c d ts' us' (inr (apart (==→≢ _ _ n)));
      }
    ]

roots_right :
    (k m : ℕ) (s : TypeStore) (h : ℕ) (a b a' b' : Ty)
    → RightBelow k m
    → open_count s.slots ≤ k
    → size a' ≤ suc m
    → IsRoot s.slots a
    → IsRoot s.slots b
    → deep s.slots h a ≡ some a'
    → deep s.slots h b ≡ some b'
    → RootsOutcome s a b a' b'
unfolding deep size subst_ty
roots_right k m s zero a b a' b' ih hk hm ra rb e e' = absurd (cc)
roots_right k m s (suc h) (var x) (var y) a' b' ih hk hm (l, at) (l', at') e e' =
    rw (var_means s.slots h x l a' at e, var_means s.slots h y l' b' at' e')
      (roots_vars s h x y l l' at at')
roots_right k m s (suc h) (var x) (con d us) a' b' ih hk hm (l, at) rb e e' =
    let (us', same, es) = deep-con s.slots h d us b' e' in
    rw (var_means s.slots h x l a' at e, same)
      (roots_bind s (suc h) x l (con d us) (con d us') at (rw same at e')
        (λ found τ. occurs_no_unifier τ x d us' found))
roots_right k m s (suc h) (con c ts) (var y) a' b' ih hk hm ra (l, at) e e' =
    let (ts', same, es) = deep-con s.slots h c ts a' e in
    rw (var_means s.slots h y l b' at e', same)
      (Outcome-iff (λ τ p. sym p) (λ τ p. sym p)
        (roots_bind s (suc h) y l (con c ts) (con c ts') at (rw same at e)
          (λ found τ. occurs_no_unifier τ y c ts' found)))
roots_right k m s (suc h) (con c ts) (con d us) a' b' ih hk hm ra rb e e' =
    let (ts', same, es) = deep-con s.slots h c ts a' e in
    let (us', same', es') = deep-con s.slots h d us b' e' in
    let small : size_args ts' ≤ m = omega (arith, ap size same) in
    rw (same, same') (roots_cons k m s h c d ts us ts' us' ih hk small es es')

Right-step : (k m : ℕ) → RightBelow k m → Right k (suc m)
unfolding unify
Right-step k m ih s h a b a' b' hk hm ea eb =
    let p = resolve_total h s a a' ea in
    let q = resolve_total h p.store b b' (p.keeps.means h b b' eb) in
    let o =
      roots_right k m q.store h p.root q.root a' b' ih (omega (arith, p.keeps.count, q.keeps.count))
        hm (IsRoot-Keeps q.keeps p.root p.at_root) q.at_root (q.keeps.means h p.root a' p.means)
        q.means in
    record {
      result = o.result;
      store = o.store;
      fuel = suc (h + o.fuel);
      runs = elim [
        | zero ↦ λ le. absurd (omega arith)
        | suc f ↦ λ le. rw (p.runs f (omega arith), q.runs f (omega arith)) (o.runs f (omega arith))
      ];
      post = Post-Keeps (Unifies a' b') o.store.slots (Keeps-trans p.keeps q.keeps) o.result o.post;
    }

-- Lexicographic induction: on the unbound variables, then on the size.
Right-below : (k m k' m' : ℕ) → (k' < k) ⊎ (k' ≤ k) × (m' < m) → Right k' m'
Right-below zero zero k' m' (inl lt) = absurd (omega arith)
Right-below zero zero k' m' (inr lt) = absurd (omega arith)
Right-below (suc k) zero k' m' (inl lt) =
    Right-below k (suc m') k' m' (inr (omega arith, omega arith))
Right-below (suc k) zero k' m' (inr lt) = absurd (omega arith)
Right-below k (suc m) k' m' (inl lt) = Right-below k m k' m' (inl lt)
Right-below k (suc m) k' zero (inr lt) =
    λ s h a b a' b' hk hm ea eb. absurd (omega (arith, size_pos a'))
Right-below k (suc m) k' (suc m') (inr lt) = Right-step k' m' (λ i j c.
    Right-below k m i j
      (elim c [ inl h ↦ inl (omega arith) | inr (h, h') ↦ inr (omega arith, omega arith) ]))

-- With enough fuel `unify` returns, on every store and for all types whose variables it gives a
-- meaning. It returns `done` with the store's meaning composed with a most general unifier of what
-- the two types meant, or an error, and then they have no unifier.
pub unify_correct :
    (s : TypeStore) (h : ℕ) (a b a' b' : Ty)
    → deep s.slots h a ≡ some a'
    → deep s.slots h b ≡ some b'
    → Outcome (Unifies a' b') s (λ f. unify f a b s)
unify_correct s h a b a' b' ea eb =
    Right-below (suc (open_count s.slots)) 0 (open_count s.slots) (size a') (inl (omega arith)) s h
      a b a' b' (omega arith) (omega arith) ea eb
