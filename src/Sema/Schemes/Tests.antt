-- ===== src/Sema/Schemes/Tests.antt =====
-- A type generalised and instantiated, and the theorems at these inputs.
use wsharp.Prelude.{ℕ, ◌+◌, ◌<◌, ◌≡◌, refl, some, List, [], ◌∷◌, ◌&&◌, get_elem?}
use wsharp.Sema.Ty.{Ty, var, con, nil, cons, fn, str, subst_ty, has_var}
use wsharp.Sema.Store.{unbound, bound, TypeStore, ok, new, set_slot, level_of}
use wsharp.Sema.Unify.{resolve}
use wsharp.Sema.Unify.Meaning.{deep}
use wsharp.Sema.Schemes.{
  contains, get_or_var, zip, resolve_deep, subst_vars, generalize, instantiate,
}
use wsharp.Sema.Schemes.Replace.{Returns, resolve_deep_total, subst_vars_total}
use wsharp.Sema.Schemes.Collect.{is_inner, IsDistinct, generalize_total}
use wsharp.Sema.Schemes.Instantiate.{instantiate_total}

-- `T0 := T1`, `T1` and `T2` unbound at levels 0 and 2, in level 1.
abbrev store : TypeStore
store = record new { slots = bound (var 1) ∷ unbound 0 ∷ unbound 2 ∷ []; level = 1 }

-- fn(T0, T2) T2, and what it means
abbrev function : Ty
function = con fn (cons (var 0) (cons (var 2) (cons (var 2) nil)))

abbrev meaning : Ty
meaning = con fn (cons (var 1) (cons (var 2) (cons (var 2) nil)))

function_means : deep store.slots 3 function ≡ some meaning
unfolding deep
function_means = refl

generalize_run :
    generalize 5 function store
    ≡ ok (record { vars = 2 ∷ []; ty = function }, record store { trail = (0, bound (var 1)) ∷ [] })
unfolding generalize resolve set_slot level_of
generalize_run = refl

instantiate_run :
    instantiate 5 (record { vars = 2 ∷ []; ty = function }) store
    ≡ ok (
      (con fn (cons (var 1) (cons (var 3) (cons (var 3) nil))), var 3 ∷ []),
      record store {
        slots = bound (var 1) ∷ unbound 0 ∷ unbound 2 ∷ unbound 1 ∷ [];
        trail = (0, bound (var 1)) ∷ [];
      },
    )
unfolding instantiate resolve set_slot
instantiate_run = refl

resolve_deep_total_example : Returns store 3 meaning (λ f. resolve_deep f function store)
resolve_deep_total_example = resolve_deep_total 3 store function meaning function_means

-- `T2` becomes `str`.
abbrev to_str : List (ℕ × Ty)
to_str = (2, con str nil) ∷ []

subst_vars_total_example :
    Returns store 3 (subst_ty (get_or_var to_str) meaning) (λ f. subst_vars f to_str function store)
subst_vars_total_example = subst_vars_total 3 to_str store function meaning function_means

generalize_total_example :
    (vars : List ℕ) × Returns store 3
      (record { vars = vars; ty = function })
      (λ f. generalize f function store)
    × ((v : ℕ) → contains v vars ≡ is_inner store v && has_var v meaning)
    × IsDistinct vars
generalize_total_example = generalize_total 3 store function meaning function_means

instantiate_total_example :
    (s : TypeStore) × ((f : ℕ)
      → 3 < f
      → instantiate f (record { vars = 2 ∷ []; ty = function }) store
        ≡ ok ((subst_ty (get_or_var (zip (2 ∷ []) (var 3 ∷ []))) meaning, var 3 ∷ []), s))
    × ((i : ℕ) → i < 1 → get_elem? s.slots (3 + i) ≡ some (unbound 1))
    × ((k : ℕ) (a w : Ty) → deep store.slots k a ≡ some w → deep s.slots k a ≡ some w)
instantiate_total_example = instantiate_total 3 store 2 [] function meaning function_means
