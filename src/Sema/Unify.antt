-- ===== src/Sema/Unify.antt =====
-- Unification, crates/wsharp-sema/src/ty.rs: `resolve`, `occurs_and_adjust`, `bind`, `unify` and
-- `try_unify_checked`. Each takes fuel for the depth of its calls, each loop over arguments takes
-- the call for one of them, and `?` is `try_with`.
pub mod Undo
pub mod Meaning
pub mod Resolve
pub mod Occurs
pub mod Bind
pub mod Outcome
pub mod Arguments
pub mod Correct
pub mod Attempt
mod Tests
use wsharp.Prelude.{
  ℕ, zero, suc, ◌≡◌, Bool, true, false, Option, none, some, ◌==◌, ltb, if◌then◌else◌, get_elem?,
}
use wsharp.Sema.Ty.{Ty, Args, TyCon, TyCon-discrete, var, con, nil, cons, count_args}
use wsharp.Sema.Store.{
  Slot, unbound, bound, TypeStore, Run, ok, panic, out_of_fuel, M, pure, and_then, ◌>>=◌, ◌>>◌,
  set_slot, snapshot, rollback_to, level_of,
}

-- `Result<(), UnifyError>`.
pub data Unified : Type 0 where
  done mismatch occurs : Unified

-- The `?` operator.
abbrev pub try_with : Unified → M Unified → M Unified
try_with done k = k
try_with mismatch k = pure mismatch
try_with occurs k = pure occurs

-- `resolve` at a variable, by the variable's slot.
abbrev pub resolve_slot : (Ty → M Ty) → ℕ → Option Slot → M Ty
resolve_slot rec v none s = panic
resolve_slot rec v (some (unbound l)) s = ok (var v, s)
resolve_slot rec v (some (bound t)) s =
    and_then (rec t s) (λ root. set_slot v (bound root) >> pure root)

unfoldable pub resolve : ℕ → Ty → M Ty
resolve f (con c ts) s = ok (con c ts, s)
resolve zero (var v) s = out_of_fuel
resolve (suc f) (var v) s = resolve_slot (resolve f) v (get_elem? s.slots v) s

-- Lower the level of the unbound `v` to `level`.
unfoldable pub adjust : ℕ → ℕ → M Unified
adjust v level = do
  l ← level_of v
  if ltb level l then (set_slot v (unbound level) >> pure done) else pure done

abbrev pub occurs_args : (Ty → M Unified) → Args → M Unified
occurs_args rec nil = pure done
occurs_args rec (cons a ts) = do r ← rec a; try_with r (occurs_args rec ts)

abbrev pub occurs_root : (Ty → M Unified) → ℕ → ℕ → Ty → M Unified
occurs_root rec x level (var v) = if v == x then pure occurs else adjust v level
occurs_root rec x level (con c ts) = occurs_args rec ts

unfoldable pub occurs_and_adjust : ℕ → ℕ → ℕ → Ty → M Unified
occurs_and_adjust zero x level t s = out_of_fuel
occurs_and_adjust (suc f) x level t s =
    and_then (resolve f t s) (λ root. occurs_root (occurs_and_adjust f x level) x level root)

unfoldable pub bind : ℕ → ℕ → Ty → M Unified
bind f x t = do
  level ← level_of x
  r ← occurs_and_adjust f x level t
  try_with r (set_slot x (bound t) >> pure done)

abbrev pub unify_args : (Ty → Ty → M Unified) → Args → Args → M Unified
unify_args rec nil ts = pure done
unify_args rec (cons a ts) nil = pure done
unify_args rec (cons a ts) (cons b us) = do r ← rec a b; try_with r (unify_args rec ts us)

-- Two constructors, by the comparison of them.
abbrev pub unify_cons : {P : Type 0} → (Ty → Ty → M Unified) → Args → Args → Dec P → M Unified
unify_cons rec ts us (yes same) =
    if count_args ts == count_args us then unify_args rec ts us else pure mismatch
unify_cons rec ts us (no differ) = pure mismatch

-- The `match` of `unify` on two resolved types.
abbrev pub unify_roots : (Ty → Ty → M Unified) → (ℕ → Ty → M Unified) → Ty → Ty → M Unified
unify_roots rec bind_to (var x) (var y) = if x == y then pure done else bind_to x (var y)
unify_roots rec bind_to (var x) (con d us) = bind_to x (con d us)
unify_roots rec bind_to (con c ts) (var y) = bind_to y (con c ts)
unify_roots rec bind_to (con c ts) (con d us) = unify_cons rec ts us (TyCon-discrete c d)

unfoldable pub unify : ℕ → Ty → Ty → M Unified
unify zero a b s = out_of_fuel
unify (suc f) a b s =
    and_then (resolve f a s) (λ a'. resolve f b >>= λ b'. unify_roots (unify f) (bind f) a' b')

-- Keep the substitution on success, undo it on failure.
abbrev pub keep_or_undo : ℕ → Unified → M Unified
keep_or_undo mark done s = ok (done, s)
keep_or_undo mark mismatch s = ok (mismatch, rollback_to mark s)
keep_or_undo mark occurs s = ok (occurs, rollback_to mark s)

unfoldable pub try_unify_checked : ℕ → Ty → Ty → M Unified
try_unify_checked f a b s = and_then (unify f a b s) (keep_or_undo (snapshot s))
