-- ===== src/Sema/Unify/Bind.antt =====
-- For `bind` of crates/wsharp-sema/src/ty.rs.
use wsharp.Prelude.{
  ℕ, zero, suc, ◌+◌, ◌≤◌, ◌<◌, ◌≡◌, refl, ◌∙◌, ap, false, Option, none, some, List, arith, inl, inr,
  get_elem?, set, ◌==◌, Bool-cases, ==→≡, ==→≢, lt-length, get_elem?-set_self, get_elem?-set_ne,
}
use wsharp.Sema.Ty.{Ty, Args, var, con, nil, cons, has_var, has_var_args, subst_ty, subst_args}
use wsharp.Sema.Ty.Subst.{single}
use wsharp.Sema.Store.{Slot, unbound, bound, TypeStore, ok, wrote, set_slot_lem, level_of_lem}
use wsharp.Sema.Unify.{bind}
use wsharp.Sema.Unify.Meaning.{
  deep, deep_slot, deep-unbound, deep-bound, deep_mono, open_count, open_count-set, deep-con,
  deep_args, deep_args-cons,
}
use wsharp.Sema.Unify.Occurs.{Checked, verdict, occurs_total}

deep_args_fresh :
    (x : ℕ) (f g : Ty → Option Ty)
    → ((t u : Ty) → f t ≡ some u → has_var x u ≡ false → g t ≡ some u)
    → (ts us : Args) → deep_args f ts ≡ some us
    → has_var_args x us ≡ false
    → deep_args g ts ≡ some us
unfolding has_var
deep_args_fresh x f g h nil us e clear = e
deep_args_fresh x f g h (cons a ts) us e clear =
    let (b, bs, same, ea, es) = deep_args-cons f a ts us e in
    let apart : has_var_args x (cons b bs) ≡ false = rw same at clear in
    cc (h a b ea (ground (arith, apart)), deep_args_fresh x f g h ts bs es (ground (arith, apart)))

pub deep_args_subst :
    (θ : ℕ → Ty) (f g : Ty → Option Ty)
    → ((t u : Ty) → f t ≡ some u → g t ≡ some (subst_ty θ u))
    → (ts us : Args) → deep_args f ts ≡ some us
    → deep_args g ts ≡ some (subst_args θ us)
unfolding subst_ty
deep_args_subst θ f g h nil us e = let same : us ≡ nil = ground arith in rw same refl
deep_args_subst θ f g h (cons a ts) us e =
    let (b, bs, same, ea, es) = deep_args-cons f a ts us e in
    rw same (cc (h a b ea, deep_args_subst θ f g h ts bs es))

-- Every bound or unbound slot but the one for `x` is as it was.
module _ (slots : List Slot) (x l : ℕ) (t : Ty) (at : get_elem? slots x ≡ some (unbound l)) where
  abbrev after : List Slot
  after = set slots x (bound t)

  after_self : get_elem? after x ≡ some (bound t)
  after_self = get_elem?-set_self slots x (bound t) (lt-length slots x (unbound l) at)

  after_ne : (v : ℕ) → (x == v) ≡ false → get_elem? after v ≡ get_elem? slots v
  after_ne v miss = get_elem?-set_ne slots (bound t) (==→≢ x v miss)

  fresh_means :
      (k : ℕ) (a w : Ty) → deep slots k a ≡ some w → has_var x w ≡ false → deep after k a ≡ some w
  unfolding deep has_var
  fresh_means zero a w e clear = absurd (cc)
  fresh_means (suc k) (con c ts) w e clear =
      let (us, same, es) = deep-con slots k c ts w e in
      let apart : has_var x (con c us) ≡ false = rw same at clear in
      cc (deep_args_fresh x (deep slots k) (deep after k) (fresh_means k) ts us es apart)
  fresh_means (suc k) (var v) w e clear = elim (Bool-cases (x == v)) [
    | inl hit ↦
        let same = ==→≡ x v hit in
        let whole : deep slots (suc k) (var v) ≡ some (var v) =
          deep-unbound slots k v l (rw (← same) at) in
        absurd (ground (arith, whole))
    | inr miss ↦ rw (after_ne v miss) (of_slot (get_elem? slots v) (fresh_means k) e)
  ]
    where
      of_slot :
          (o : Option Slot)
          → ((a w : Ty) → deep slots k a ≡ some w → has_var x w ≡ false → deep after k a ≡ some w)
          → deep_slot (deep slots k) v o ≡ some w
          → deep_slot (deep after k) v o ≡ some w
      of_slot none rec p = p
      of_slot (some (unbound m)) rec p = p
      of_slot (some (bound b)) rec p = rec b w p clear

  module _ (h : ℕ) (u : Ty) (means : deep slots h t ≡ some u) (clear : has_var x u ≡ false) where
    bind_means :
        (k j : ℕ) (a w : Ty)
        → k + h ≤ j
        → deep slots k a ≡ some w
        → deep after j a ≡ some (subst_ty (single x u) w)
    unfolding deep subst_ty
    bind_means zero j a w le e = absurd (cc)
    bind_means (suc k) zero a w le e = absurd (omega arith)
    bind_means (suc k) (suc j) (con c ts) w le e =
        let (us, same, es) = deep-con slots k c ts w e in
        rw same (
          cc (
            deep_args_subst (single x u) (deep slots k) (deep after j)
              (λ a' w'. bind_means k j a' w' (omega arith)) ts us es))
    bind_means (suc k) (suc j) (var v) w le e = elim (Bool-cases (x == v)) [
      | inl hit ↦
          let same = ==→≡ x v hit in
          let whole : deep slots (suc k) (var v) ≡ some (var v) =
            deep-unbound slots k v l (rw (← same) at) in
          let itself : w ≡ var v = cc (whole) in
          let found : deep after (suc j) (var v) ≡ some u = rw (← same) (
            deep-bound after j x t after_self
            ∙ deep_mono after h j t u (omega arith) (fresh_means h t u means clear)) in
          rw itself (found ∙ ap some (ground arith))
      | inr miss ↦
          rw (after_ne v miss)
            (of_slot miss (get_elem? slots v) (λ b. bind_means k j b w (omega arith)) e)
    ]
      where
        of_slot :
            (x == v) ≡ false
            → (o : Option Slot)
            → ((b : Ty) → deep slots k b ≡ some w → deep after j b ≡ some (subst_ty (single x u) w))
            → deep_slot (deep slots k) v o ≡ some w
            → deep_slot (deep after j) v o ≡ some (subst_ty (single x u) w)
        of_slot miss none rec p = absurd (cc)
        of_slot miss (some (unbound m)) rec p =
            let itself : w ≡ var v = ground arith in rw itself (ground arith)
        of_slot miss (some (bound b)) rec p = rec b p

-- The whole outcome of binding `x` to `t`, which means `u`.
pub record Bound (s : TypeStore) (h x : ℕ) (t u : Ty) : Type 0 where
  pub store : TypeStore
  pub runs : (f : ℕ) → h < f → bind f x t s ≡ ok (verdict (has_var x u), store)
  pub means :
      has_var x u ≡ false
      → (k : ℕ) (a w : Ty) → deep s.slots k a ≡ some w
      → (j : ℕ) × (deep store.slots j a ≡ some (subst_ty (single x u) w))
  pub fewer : has_var x u ≡ false → open_count store.slots < open_count s.slots

pub bind_total :
    (s : TypeStore) (h x l : ℕ) (t u : Ty)
    → get_elem? s.slots x ≡ some (unbound l)
    → deep s.slots h t ≡ some u
    → Bound s h x t u
unfolding bind
bind_total s h x l t u at e = elim (Bool-cases (has_var x u)) [
  | inl found ↦ record {
    store = c.store;
    runs = λ f lt. rw (level_of_lem x l s at, c.runs f lt, found) refl;
    means = λ clear. absurd (cc);
    fewer = λ clear. absurd (cc);
  }
  | inr clear ↦
      let (m, now, le) = c.keeps.stays x l at in
      record {
        store = wrote x (bound t) (unbound m) c.store;
        runs = λ f lt.
            rw
              (
                level_of_lem x l s at,
                c.runs f lt,
                clear,
                set_slot_lem x (bound t) (unbound m) c.store now,
              )
              refl;
        means = λ _ k a w p. (
          k + h,
          bind_means c.store.slots x m t now h u (c.keeps.means h t u e) clear k (k + h) a w
              (omega arith) (c.keeps.means k a w p),
        );
        fewer = λ _.
            omega (arith, open_count-set c.store.slots x (bound t) (unbound m) now, c.keeps.count);
      }
]
  where
    c : Checked s h x l t u
    c = occurs_total h x l s t u e
