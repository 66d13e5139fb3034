-- ===== src/Sema/Unify/Occurs.antt =====
-- For `occurs_and_adjust` of crates/wsharp-sema/src/ty.rs.
use wsharp.Prelude.{
  ℕ, zero, suc, ◌≤◌, ◌<◌, ◌≡◌, refl, sym, ◌∙◌, ◌⊎◌, Bool, true, false, some, List, arith, inl, inr,
  get_elem?, set, ◌==◌, Bool-cases, ==→≡, ==→≢, lt-length, ltb, if◌then◌else◌, get_elem?-set_self,
  get_elem?-set_ne,
}
use wsharp.Sema.Ty.{Ty, Args, var, con, nil, cons, has_var, has_var_args}
use wsharp.Sema.Store.{Slot, unbound, TypeStore, ok, wrote, set_slot_lem, level_of_lem}
use wsharp.Sema.Unify.{Unified, done, occurs, adjust, occurs_args, occurs_and_adjust, occurs_root}
use wsharp.Sema.Unify.Meaning.{
  deep, deep-unbound, deep_map, open_count-set, deep-con, deep_args, deep_args-cons, deep_args_mono,
  deep_slot_mono,
}
use wsharp.Sema.Unify.Resolve.{Keeps, Keeps-refl, Keeps-trans, resolve_total, IsRoot}

relevel_means :
    (slots : List Slot) (v l level : ℕ)
    → get_elem? slots v ≡ some (unbound l)
    → (h : ℕ) (t u : Ty) → deep slots h t ≡ some u
    → deep (set slots v (unbound level)) h t ≡ some u
unfolding deep
relevel_means slots v l level old zero t u e = absurd (cc)
relevel_means slots v l level old (suc h) t u e =
    let below = λ (t' u' : Ty). relevel_means slots v l level old h t' u' in
    deep_map slots (set slots v (unbound level)) h h below
      (λ w u' e'. elim (Bool-cases (v == w)) [
        | inl hit ↦
            let same = ==→≡ v w hit in
            let now : get_elem? (set slots v (unbound level)) w ≡ some (unbound level) =
              rw (← same)
                (get_elem?-set_self slots v (unbound level) (lt-length slots v (unbound l) old)) in
            deep-unbound _ h w level now ∙ sym (deep-unbound slots h w l (rw (← same) old)) ∙ e'
        | inr miss ↦ rw (get_elem?-set_ne slots (unbound level) (==→≢ v w miss)) (
            deep_slot_mono (deep slots h) (deep (set slots v (unbound level)) h) below w
              (get_elem? slots w) u' e')
      ])
      t u e

Keeps-relevel :
    (slots : List Slot) (v l level : ℕ)
    → get_elem? slots v ≡ some (unbound l)
    → level < l
    → Keeps slots (set slots v (unbound level))
Keeps-relevel slots v l level old lower = record {
  means = relevel_means slots v l level old;
  count = omega (arith, open_count-set slots v (unbound level) (unbound l) old);
  stays = λ w k e. elim (Bool-cases (v == w)) [
    | inl hit ↦
        let same = ==→≡ v w hit in
        (
          level,
          rw (← same)
              (get_elem?-set_self slots v (unbound level) (lt-length slots v (unbound l) old)),
          ground (arith, old, e),
        )
    | inr miss ↦ (k, get_elem?-set_ne slots (unbound level) (==→≢ v w miss) ∙ e, omega arith)
  ];
}

record Adjusted (s : TypeStore) (v level : ℕ) : Type 0 where
  store : TypeStore
  runs : adjust v level s ≡ ok (done, store)
  keeps : Keeps s.slots store.slots
  low : (l : ℕ) × (get_elem? store.slots v ≡ some (unbound l)) × (l ≤ level)

adjust_total :
    (s : TypeStore) (v l level : ℕ) → get_elem? s.slots v ≡ some (unbound l) → Adjusted s v level
unfolding adjust
adjust_total s v l level old = elim (Bool-cases (ltb level l)) [
  | inl lower ↦ record {
    store = wrote v (unbound level) (unbound l) s;
    runs =
        rw (level_of_lem v l s old, lower, set_slot_lem v (unbound level) (unbound l) s old) refl;
    keeps = Keeps-relevel s.slots v l level old (ground arith);
    low = (
      level,
      get_elem?-set_self s.slots v (unbound level) (lt-length s.slots v (unbound l) old),
      omega arith,
    );
  }
  | inr fine ↦ record {
    store = s;
    runs = rw (level_of_lem v l s old, fine) refl;
    keeps = Keeps-refl s.slots;
    low = (l, old, ground arith);
  }
]

-- Every variable of `u` is unbound, at `level` or further out.
abbrev pub Below : List Slot → ℕ → Ty → Type 0
Below slots level u =
    (v : ℕ) → has_var v u ≡ true → (l : ℕ) × (get_elem? slots v ≡ some (unbound l)) × (l ≤ level)

abbrev BelowArgs : List Slot → ℕ → Args → Type 0
BelowArgs slots level us =
    (v : ℕ)
    → has_var_args v us ≡ true
    → (l : ℕ) × (get_elem? slots v ≡ some (unbound l)) × (l ≤ level)

abbrev pub verdict : Bool → Unified
verdict b = if b then occurs else done

-- The whole outcome of the check of `t`, which means `u`.
pub record Checked (s : TypeStore) (h x level : ℕ) (t u : Ty) : Type 0 where
  pub store : TypeStore
  pub runs : (f : ℕ) → h < f → occurs_and_adjust f x level t s ≡ ok (verdict (has_var x u), store)
  pub keeps : Keeps s.slots store.slots
  pub below : has_var x u ≡ false → Below store.slots level u

record CheckedArgs (s : TypeStore) (h x level : ℕ) (ts us : Args) : Type 0 where
  store : TypeStore
  runs :
      (f : ℕ)
      → h < f
      → occurs_args (occurs_and_adjust f x level) ts s ≡ ok (verdict (has_var_args x us), store)
  keeps : Keeps s.slots store.slots
  below : has_var_args x us ≡ false → BelowArgs store.slots level us

module _ (h x level : ℕ)
    (rec : (s : TypeStore) (t u : Ty) → deep s.slots h t ≡ some u → Checked s h x level t u) where
  args_total :
      (ts us : Args) (s : TypeStore)
      → deep_args (deep s.slots h) ts ≡ some us
      → CheckedArgs s h x level ts us
  unfolding has_var
  args_total nil us s e =
      let same : us ≡ nil = ground arith in
      rw same (record {
        store = s;
        runs = λ f lt. refl;
        keeps = Keeps-refl s.slots;
        below = λ fine v p. absurd (cc);
      })
  args_total (cons a ts) us s e =
      let (b, bs, same, ea, es) = deep_args-cons (deep s.slots h) a ts us e in
      let first = rec s a b ea in
      rw same (
        of_verdict b bs first (Bool-cases (has_var x b)) (
          args_total ts bs first.store (
            deep_args_mono (deep s.slots h) (deep first.store.slots h) (first.keeps.means h) ts bs
              es)))
    where
      of_verdict :
          (b : Ty) (bs : Args) (first : Checked s h x level a b)
          → (has_var x b ≡ true) ⊎ (has_var x b ≡ false)
          → CheckedArgs first.store h x level ts bs
          → CheckedArgs s h x level (cons a ts) (cons b bs)
      of_verdict b bs first (inl found) rest = record {
        store = first.store;
        runs = λ f lt. rw (first.runs f lt, found) refl;
        keeps = first.keeps;
        below = λ fine v p. absurd (ground arith);
      }
      of_verdict b bs first (inr clear) rest = record {
        store = rest.store;
        runs = λ f lt. rw (first.runs f lt, clear) (rest.runs f lt);
        keeps = Keeps-trans first.keeps rest.keeps;
        below = λ fine v p. elim (Bool-cases (has_var v b)) [
          | inl here ↦
              let (l, at, le) = first.below clear v here in
              let (l', at', le') = rest.keeps.stays v l at in (l', at', omega arith)
          | inr there ↦ rest.below (ground arith) v (ground arith)
        ];
      }

-- `u`, the meaning of the variable that `t` resolves to, is the variable.
unbound_means :
    (slots : List Slot) (h v l : ℕ) (u : Ty)
    → get_elem? slots v ≡ some (unbound l)
    → deep slots (suc h) (var v) ≡ some u
    → u ≡ var v
unbound_means slots h v l u at e = cc (deep-unbound slots h v l at)

-- The step at a root, for the recursive call of any fuel above `h`.
record AtRoot (s : TypeStore) (h x level : ℕ) (root u : Ty) : Type 0 where
  store : TypeStore
  runs :
      (f : ℕ)
      → h < f
      → occurs_root (occurs_and_adjust f x level) x level root s ≡ ok (verdict (has_var x u), store)
  keeps : Keeps s.slots store.slots
  below : has_var x u ≡ false → Below store.slots level u

AtRoot-var :
    (s : TypeStore) (h x level v l : ℕ)
    → get_elem? s.slots v ≡ some (unbound l)
    → AtRoot s h x level (var v) (var v)
unfolding has_var
AtRoot-var s h x level v l at = elim (Bool-cases (v == x)) [
  | inl hit ↦ record {
    store = s;
    runs = λ f lt. rw hit refl;
    keeps = Keeps-refl s.slots;
    below = λ fine w p. absurd (ground arith);
  }
  | inr miss ↦
      let a = adjust_total s v l level at in
      record {
        store = a.store;
        runs = λ f lt. rw miss a.runs;
        keeps = a.keeps;
        below = λ fine w p. let same = ==→≡ v w p in rw (← same) a.low;
      }
]

AtRoot-total :
    (s : TypeStore) (h x level : ℕ) (root u : Ty)
    → ((s : TypeStore) (t u : Ty) → deep s.slots h t ≡ some u → Checked s h x level t u)
    → IsRoot s.slots root
    → deep s.slots (suc h) root ≡ some u
    → AtRoot s h x level root u
unfolding has_var
AtRoot-total s h x level (var v) u rec (l, at) e =
    rw (unbound_means s.slots h v l u at e) (AtRoot-var s h x level v l at)
AtRoot-total s h x level (con c ts) u rec at e =
    let (us, same, es) = deep-con s.slots h c ts u e in
    let all = args_total h x level rec ts us s es in
    rw same (record { store = all.store; runs = all.runs; keeps = all.keeps; below = all.below })

-- With fuel above the depth of a type that the store gives a meaning, the check returns: `occurs` if
-- the variable is in the type's meaning, and else `done`, and then no variable of the meaning is left
-- above the level. Every type keeps its meaning.
pub occurs_total :
    (h x level : ℕ) (s : TypeStore) (t u : Ty) → deep s.slots h t ≡ some u → Checked s h x level t u
unfolding deep occurs_and_adjust
occurs_total zero x level s t u e = absurd (cc)
occurs_total (suc h) x level s t u e =
    let r = resolve_total (suc h) s t u e in
    let a = AtRoot-total r.store h x level r.root u (occurs_total h x level) r.at_root r.means in
    record {
      store = a.store;
      runs = elim [
        | zero ↦ λ lt. absurd (omega arith)
        | suc f ↦ λ lt. rw (r.runs f (omega arith)) (a.runs f (omega arith))
      ];
      keeps = Keeps-trans r.keeps a.keeps;
      below = a.below;
    }
