-- ===== src/Sema/Unify/Tests.antt =====
-- Runs of unification on a small store, and the theorems at these inputs.
use wsharp.Prelude.{ℕ, ◌≤◌, ◌≡◌, refl, true, some, [], ◌∷◌, arith}
use wsharp.Sema.Ty.{Ty, var, con, nil, cons, fn, int, str, optional, TyCon-discrete}
use wsharp.Sema.Store.{
  unbound, bound, TypeStore, ok, new, set_slot, level_of, rollback_to, snapshot,
}
use wsharp.Sema.Unify.{
  Unified, mismatch, occurs, resolve, occurs_and_adjust, bind, unify, try_unify_checked,
}
use wsharp.Sema.Unify.Meaning.{deep}
use wsharp.Sema.Unify.Resolve.{Resolved, resolve_total}
use wsharp.Sema.Unify.Occurs.{Checked, occurs_total}
use wsharp.Sema.Unify.Outcome.{Outcome}
use wsharp.Sema.Unify.Arguments.{Unifies}
use wsharp.Sema.Unify.Correct.{unify_correct}
use wsharp.Sema.Unify.Attempt.{Attempt, try_unify_checked_correct}
use wsharp.Sema.Unify.Undo.{try_unify_checked-undone}

abbrev i64 : Ty
i64 = con (int (record { signed = true; bits = 64 })) nil

abbrev string : Ty
string = con str nil

-- `T0 := T1`, `T1` and `T2` unbound at levels 1 and 2.
abbrev store : TypeStore
store = record new { slots = bound (var 1) ∷ unbound 1 ∷ unbound 2 ∷ [] }

-- fn(T0) T2, fn(i64) ?T1, fn(str) ?T1 and fn(i64) T2
abbrev left : Ty
left = con fn (cons (var 0) (cons (var 2) nil))

abbrev right : Ty
right = con fn (cons i64 (cons (con optional (cons (var 1) nil)) nil))

abbrev clash : Ty
clash = con fn (cons string (cons i64 nil))

abbrev clash' : Ty
clash' = con fn (cons string (cons string nil))

abbrev left_meaning : Ty
left_meaning = con fn (cons (var 1) (cons (var 2) nil))

left_means : deep store.slots 4 left ≡ some left_meaning
unfolding deep
left_means = refl

right_means : deep store.slots 4 right ≡ some right
unfolding deep
right_means = refl

-- The store after a failure on the second argument is the store before it.
undone_run : try_unify_checked 9 clash clash' store ≡ ok (mismatch, store)
unfolding try_unify_checked unify resolve TyCon-discrete rollback_to snapshot
undone_run = refl

occurs_run : try_unify_checked 9 (var 0) right store ≡ ok (occurs, store)
unfolding try_unify_checked unify resolve TyCon-discrete occurs_and_adjust set_slot bind level_of
    rollback_to snapshot
occurs_run = refl

unify_correct_example : Outcome (Unifies left_meaning right) store (λ f. unify f left right store)
unify_correct_example = unify_correct store 4 left right left_meaning right left_means right_means

try_unify_checked_correct_example :
    (fuel : ℕ) × ((f : ℕ)
      → fuel ≤ f
      → (u : Unified) × (t : TypeStore) × (try_unify_checked f left right store ≡ ok (u, t))
        × Attempt store left_meaning right u t)
try_unify_checked_correct_example =
    try_unify_checked_correct store 4 left right left_meaning right left_means right_means

try_unify_checked-undone_example : store ≡ store
try_unify_checked-undone_example =
    try_unify_checked-undone 9 clash clash' store store mismatch undone_run (λ e. ground arith)

occurs_total_example : Checked store 4 1 0 left left_meaning
occurs_total_example = occurs_total 4 1 0 store left left_meaning left_means

resolve_total_example : Resolved store 4 (var 0) (var 1)
unfolding deep
resolve_total_example = resolve_total 4 store (var 0) (var 1) refl
