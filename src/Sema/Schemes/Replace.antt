-- ===== src/Sema/Schemes/Replace.antt =====
-- For `resolve_deep` and `subst_vars` of crates/wsharp-sema/src/ty.rs.
use wsharp.Prelude.{ℕ, zero, suc, ◌<◌, ◌≡◌, refl, ◌∙◌, some, List, arith, get_elem?}
use wsharp.Sema.Ty.{Ty, Args, var, con, nil, cons, subst_ty, subst_args}
use wsharp.Sema.Ty.Subst.{subst_id}
use wsharp.Sema.Store.{Slot, TypeStore, Run, ok, M, and_then, level_at}
use wsharp.Sema.Unify.{resolve}
use wsharp.Sema.Unify.Meaning.{
  deep, deep-con, deep_args, deep_args-cons, deep_args_mono, deep-unbound,
}
use wsharp.Sema.Unify.Resolve.{Keeps, Keeps-refl, Keeps-trans, resolve_total, IsRoot}
use wsharp.Sema.Schemes.{map_args, replace_root, resolve_deep, subst_vars, get_or_var}

-- What a walk that only resolves leaves as it was: meanings, levels and the level.
pub record Walked (s t : TypeStore) : Type 0 where
  pub keeps : Keeps s.slots t.slots
  pub levels : (v : ℕ) → level_at (get_elem? t.slots v) ≡ level_at (get_elem? s.slots v)
  pub level : t.level ≡ s.level

pub Walked-refl : (s : TypeStore) → Walked s s
Walked-refl s = record { keeps = Keeps-refl s.slots; levels = λ v. refl; level = refl }

pub Walked-trans : {s t u : TypeStore} → Walked s t → Walked t u → Walked s u
Walked-trans a b = record {
  keeps = Keeps-trans a.keeps b.keeps;
  levels = λ v. b.levels v ∙ a.levels v;
  level = b.level ∙ a.level;
}

pub open_root :
    (slots : List Slot) (h v : ℕ) (u : Ty)
    → IsRoot slots (var v)
    → deep slots (suc h) (var v) ≡ some u
    → u ≡ var v
open_root slots h v u (l, at) e = cc (deep-unbound slots h v l at)

-- With fuel above `h` the run returns `out`, and only resolves.
pub record Returns {A : Type 0} (s : TypeStore) (h : ℕ) (out : A) (run : ℕ → Run (A × TypeStore))
    : Type 0 where
  pub store : TypeStore
  pub runs : (f : ℕ) → h < f → run f ≡ ok (out, store)
  pub walked : Walked s store

module _ (at : ℕ → Ty) (walk : ℕ → Ty → M Ty)
    (step : (f : ℕ) (t : Ty) (s : TypeStore)
      → walk (suc f) t s ≡ and_then (resolve f t s) (replace_root at (walk f))) where
  -- The claim for types of depth `h`.
  abbrev Replaces : ℕ → Type 0
  Replaces h =
      (s : TypeStore) (t u : Ty)
      → deep s.slots h t ≡ some u
      → Returns s h (subst_ty at u) (λ f. walk f t s)

  map_args_total :
      (h : ℕ)
      → Replaces h
      → (ts us : Args) (s : TypeStore) → deep_args (deep s.slots h) ts ≡ some us
      → Returns s h (subst_args at us) (λ f. map_args (walk f) ts s)
  unfolding subst_ty
  map_args_total h rec nil us s e =
      let same : us ≡ nil = ground arith in
      rw same (record { store = s; runs = λ f lt. refl; walked = Walked-refl s })
  map_args_total h rec (cons a ts) us s e =
      let (b, bs, same, ea, es) = deep_args-cons (deep s.slots h) a ts us e in
      let first = rec s a b ea in
      let later =
        deep_args_mono (deep s.slots h) (deep first.store.slots h) (first.walked.keeps.means h) ts
          bs es in
      let rest = map_args_total h rec ts bs first.store later in
      rw same (record {
        store = rest.store;
        runs = λ f lt. rw (first.runs f lt) (rw (rest.runs f lt) refl);
        walked = Walked-trans first.walked rest.walked;
      })

  replace_root_total :
      (h : ℕ)
      → Replaces h
      → (root u : Ty) (s : TypeStore) → IsRoot s.slots root
      → deep s.slots (suc h) root ≡ some u
      → Returns s h (subst_ty at u) (λ f. replace_root at (walk f) root s)
  unfolding subst_ty
  replace_root_total h rec (var v) u s r e =
      rw (open_root s.slots h v u r e)
        (record { store = s; runs = λ f lt. refl; walked = Walked-refl s })
  replace_root_total h rec (con c ts) u s r e =
      let (us, same, es) = deep-con s.slots h c ts u e in
      let all = map_args_total h rec ts us s es in
      rw same
        (record { store = all.store; runs = λ f lt. rw (all.runs f lt) refl; walked = all.walked })

  walk_total : (h : ℕ) → Replaces h
  unfolding deep
  walk_total zero s t u e = absurd (cc)
  walk_total (suc h) s t u e =
      let r = resolve_total (suc h) s t u e in
      let a = replace_root_total h (walk_total h) r.root u r.store r.at_root r.means in
      record {
        store = a.store;
        runs = elim [
          | zero ↦ λ lt. absurd (omega arith)
          | suc f ↦ λ lt. rw (step f t s, r.runs f (omega arith)) (a.runs f (omega arith))
        ];
        walked =
            Walked-trans (record { keeps = r.keeps; levels = r.levels; level = r.level }) a.walked;
      }

-- With fuel above the depth of a type that the store gives a meaning, `resolve_deep` returns the
-- meaning. Every type keeps its meaning, every variable its level, and the level stays.
pub resolve_deep_total :
    (h : ℕ) (s : TypeStore) (t u : Ty)
    → deep s.slots h t ≡ some u
    → Returns s h u (λ f. resolve_deep f t s)
unfolding resolve_deep
resolve_deep_total h s t u e =
    rw (← subst_id var (λ v. refl) u) (walk_total var resolve_deep (λ f t' s'. refl) h s t u e)

-- With fuel above the depth of a type that the store gives a meaning, `subst_vars` returns the
-- meaning with the map's types in place of its variables. Every type keeps its meaning, every
-- variable its level, and the level stays.
pub subst_vars_total :
    (h : ℕ) (map : List (ℕ × Ty)) (s : TypeStore) (t u : Ty)
    → deep s.slots h t ≡ some u
    → Returns s h (subst_ty (get_or_var map) u) (λ f. subst_vars f map t s)
unfolding subst_vars
subst_vars_total h map s t u e =
    walk_total (get_or_var map) (λ f. subst_vars f map) (λ f t' s'. refl) h s t u e
