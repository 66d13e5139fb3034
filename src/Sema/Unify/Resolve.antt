-- ===== src/Sema/Unify/Resolve.antt =====
-- For `resolve` of crates/wsharp-sema/src/ty.rs, which compresses the path that it follows.
use wsharp.Prelude.{
  ℕ, zero, suc, ◌≤◌, ◌≡◌, refl, sym, ap, ◌∙◌, ◌⊎◌, Option, none, some, List, arith, inl, inr,
  get_elem?, set, ◌==◌, Bool-cases, ==→≡, ==→≢, lt-length, get_elem?-set_self, get_elem?-set_ne,
}
use wsharp.Sema.Ty.{Ty, var, con}
use wsharp.Sema.Store.{Slot, unbound, bound, TypeStore, ok, wrote, level_at, set_slot_lem}
use wsharp.Sema.Unify.{resolve}
use wsharp.Sema.Unify.Meaning.{
  deep, deep_slot, deep_slot_mono, deep_mono, Shortcut, deep_map, open_count, open_count-set,
}

-- Nothing is bound or unbound; a bound slot may point at a shortcut of what it pointed at.
record Compress (slots slots' : List Slot) : Type 0 where
  at :
      (v : ℕ)
      → (get_elem? slots' v ≡ get_elem? slots v)
        ⊎ ((t : Ty) × (r : Ty) × (get_elem? slots v ≡ some (bound t))
            × (get_elem? slots' v ≡ some (bound r))
            × Shortcut slots t r)
  count : open_count slots' ≡ open_count slots

-- What the steps of unification before the binding keep: every meaning, and which variables are
-- unbound, their levels lowered at most.
pub record Keeps (slots slots' : List Slot) : Type 0 where
  pub means : (h : ℕ) (t u : Ty) → deep slots h t ≡ some u → deep slots' h t ≡ some u
  pub count : open_count slots' ≡ open_count slots
  pub stays :
      (v l : ℕ)
      → get_elem? slots v ≡ some (unbound l)
      → (l' : ℕ) × (get_elem? slots' v ≡ some (unbound l')) × (l' ≤ l)

pub Keeps-refl : (slots : List Slot) → Keeps slots slots
Keeps-refl slots = record {
  means = λ h t u e. e;
  count = refl;
  stays = λ v l e. (l, e, omega arith);
}

pub Keeps-trans : {p q r : List Slot} → Keeps p q → Keeps q r → Keeps p r
Keeps-trans {p} {q} {r} k m = record {
  means = λ h t u e. m.means h t u (k.means h t u e);
  count = m.count ∙ k.count;
  stays = λ v l e.
      let (l', e', le) = k.stays v l e in
      let (l'', e'', le') = m.stays v l' e' in (l'', e'', omega arith);
}

Compress-means :
    (slots slots' : List Slot)
    → Compress slots slots'
    → (h : ℕ) (t u : Ty) → deep slots h t ≡ some u
    → deep slots' h t ≡ some u
unfolding deep
Compress-means slots slots' c zero t u e = absurd (cc)
Compress-means slots slots' c (suc h) t u e =
    let below = λ (t' u' : Ty). Compress-means slots slots' c h t' u' in
    deep_map slots slots' h h below
      (λ v u' e'. elim (c.at v) [
        | inl same ↦
            rw same
              (deep_slot_mono (deep slots h) (deep slots' h) below v (get_elem? slots v) u' e')
        | inr (t', r, from, to, short) ↦ rw to (below r u' (short h u' (rw from at e')))
      ])
      t u e

Compress-Keeps : {slots slots' : List Slot} → Compress slots slots' → Keeps slots slots'
Compress-Keeps {slots} {slots'} c = record {
  means = Compress-means slots slots' c;
  count = c.count;
  stays = λ v l e. elim (c.at v) [
    | inl same ↦ (l, same ∙ e, omega arith)
    | inr (t, r, from, to, short) ↦ absurd (cc)
  ];
}

Compress-levels :
    {slots slots' : List Slot}
    → Compress slots slots'
    → (v : ℕ) → level_at (get_elem? slots' v) ≡ level_at (get_elem? slots v)
Compress-levels c v = elim (c.at v) [
  | inl same ↦ ap level_at same
  | inr (t, r, from, to, short) ↦ ap level_at to ∙ sym (ap level_at from)
]

Compress-refl : (slots : List Slot) → Compress slots slots
Compress-refl slots = record { at = λ v. inl refl; count = refl }

-- One more write of a shortcut.
Compress-set :
    (slots slots' : List Slot) (v : ℕ) (t r t' : Ty)
    → Compress slots slots'
    → get_elem? slots v ≡ some (bound t)
    → get_elem? slots' v ≡ some (bound t')
    → Shortcut slots t r
    → Compress slots (set slots' v (bound r))
Compress-set slots slots' v t r t' c from to short = record {
  at = λ w. elim (Bool-cases (v == w)) [
    | inl hit ↦
        let same = ==→≡ v w hit in
        rw (← same) (
          inr (
            t,
            r,
            from,
            get_elem?-set_self slots' v (bound r) (lt-length slots' v (bound t') to),
            short,
          ))
    | inr miss ↦ rw (get_elem?-set_ne slots' (bound r) (==→≢ v w miss)) (c.at w)
  ];
  count = omega (arith, open_count-set slots' v (bound r) (bound t') to, c.count);
}

abbrev pub IsRoot : List Slot → Ty → Type 0
IsRoot slots (var v) = (l : ℕ) × (get_elem? slots v ≡ some (unbound l))
IsRoot slots (con c ts) = Unit

record Found (s : TypeStore) (h : ℕ) (t : Ty) : Type 0 where
  root : Ty
  store : TypeStore
  runs : (f : ℕ) → h ≤ f → resolve f t s ≡ ok (root, store)
  compress : Compress s.slots store.slots
  level : store.level ≡ s.level
  shortcut : Shortcut s.slots t root
  at_root : IsRoot s.slots root

Shortcut-bound :
    (slots : List Slot) (v : ℕ) (t r : Ty)
    → get_elem? slots v ≡ some (bound t)
    → Shortcut slots t r
    → Shortcut slots (var v) r
unfolding deep
Shortcut-bound slots v t r e short zero u p = absurd (cc)
Shortcut-bound slots v t r e short (suc k) u p =
    deep_mono slots k (suc k) r u (omega arith) (short k u (rw e at p))

still_bound :
    {slots slots' : List Slot} (v : ℕ) (t : Ty)
    → Compress slots slots'
    → get_elem? slots v ≡ some (bound t)
    → (t' : Ty) × (get_elem? slots' v ≡ some (bound t'))
still_bound v t c e = elim (c.at v) [
  | inl same ↦ (t, same ∙ e)
  | inr (t0, r, from, to, short) ↦ (r, to)
]

-- After the recursive call on the slot's type, the write of its root.
Found-bound :
    (s : TypeStore) (h v : ℕ) (t : Ty)
    → get_elem? s.slots v ≡ some (bound t)
    → Found s h t
    → Found s (suc h) (var v)
unfolding resolve
Found-bound s h v t e found =
    let (t', e') = still_bound v t compress e in
    record {
      root = root;
      store = wrote v (bound root) (bound t') store;
      runs = elim [
        | zero ↦ λ le. absurd (omega arith)
        | suc f ↦
            λ le. rw (e, runs f (omega arith), set_slot_lem v (bound root) (bound t') store e') refl
      ];
      compress = Compress-set s.slots store.slots v t root t' compress e e' shortcut;
      level = level;
      shortcut = Shortcut-bound s.slots v t root e shortcut;
      at_root = at_root;
    }
  where
    open found use {root, store, runs, compress, level, shortcut, at_root}

Found-total : (h : ℕ) (s : TypeStore) (t u : Ty) → deep s.slots h t ≡ some u → Found s h t
unfolding deep resolve
Found-total zero s t u e = absurd (cc)
Found-total (suc h) s (con c ts) u e = record {
  root = con c ts;
  store = s;
  runs = λ f le. refl;
  compress = Compress-refl s.slots;
  level = refl;
  shortcut = λ k u p. p;
  at_root = tt;
}
Found-total (suc h) s (var v) u e = of_slot (get_elem? s.slots v) refl (λ t. Found-total h s t u) e
  where
    of_slot :
        (o : Option Slot)
        → get_elem? s.slots v ≡ o
        → ((t : Ty) → deep s.slots h t ≡ some u → Found s h t)
        → deep_slot (deep s.slots h) v o ≡ some u
        → Found s (suc h) (var v)
    of_slot none eq rec p = absurd (cc)
    of_slot (some (unbound l)) eq rec p = record {
      root = var v;
      store = s;
      runs = elim [ zero ↦ λ le. absurd (omega arith) | suc f ↦ λ le. rw eq refl ];
      compress = Compress-refl s.slots;
      level = refl;
      shortcut = λ k u p. p;
      at_root = (l, eq);
    }
    of_slot (some (bound t)) eq rec p = Found-bound s h v t eq (rec t p)

pub IsRoot-Keeps :
    {slots slots' : List Slot} → Keeps slots slots' → (r : Ty) → IsRoot slots r → IsRoot slots' r
IsRoot-Keeps k (var v) (l, p) = let (l', p', le) = k.stays v l p in (l', p')
IsRoot-Keeps k (con c ts) p = tt

-- With fuel for the depth of the type, `resolve` returns a root. Its own meaning is that of the
-- type, in the store that it leaves, which keeps the meaning of every other type too.
pub record Resolved (s : TypeStore) (h : ℕ) (t u : Ty) : Type 0 where
  pub root : Ty
  pub store : TypeStore
  pub runs : (f : ℕ) → h ≤ f → resolve f t s ≡ ok (root, store)
  pub keeps : Keeps s.slots store.slots
  pub levels : (v : ℕ) → level_at (get_elem? store.slots v) ≡ level_at (get_elem? s.slots v)
  pub level : store.level ≡ s.level
  pub means : deep store.slots h root ≡ some u
  pub at_root : IsRoot store.slots root

-- With fuel for the depth of a type that the store gives a meaning, `resolve` returns a root with
-- that meaning: an unbound variable or a constructor. The store that it leaves gives every type the
-- meaning that it had, and every variable its level.
pub resolve_total :
    (h : ℕ) (s : TypeStore) (t u : Ty) → deep s.slots h t ≡ some u → Resolved s h t u
resolve_total h s t u e = record {
  root = root;
  store = store;
  runs = runs;
  keeps = keeps;
  levels = Compress-levels compress;
  level = level;
  means = keeps.means h root u (shortcut h u e);
  at_root = IsRoot-Keeps keeps root at_root;
}
  where
    open Found-total h s t u e use {root, store, runs, compress, level, shortcut, at_root}

    keeps : Keeps s.slots store.slots
    keeps = Compress-Keeps compress
