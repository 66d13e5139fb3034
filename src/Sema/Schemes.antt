-- ===== src/Sema/Schemes.antt =====
-- Schemes, crates/wsharp-sema/src/ty.rs: `resolve_deep`, `subst_vars`, `collect_generalizable`,
-- `generalize` and `instantiate`. Each walk takes fuel for the depth of its calls.
pub mod Replace
pub mod Collect
pub mod Instantiate
mod Tests
use wsharp.Prelude.{
  ℕ, zero, suc, Bool, true, false, not, ◌&&◌, ◌||◌, Option, none, some, List, [], ◌∷◌, ◌++◌, ◌==◌,
  ltb, if◌then◌else◌, length,
}
use wsharp.Sema.Ty.{Ty, Args, var, con, nil, cons}
use wsharp.Sema.Store.{
  unbound, TypeStore, Run, ok, out_of_fuel, M, pure, and_then, ◌>>=◌, fresh, level_of,
}
use wsharp.Sema.Unify.{resolve}

pub record Scheme : Type 0 where
  pub vars : List ℕ
  pub ty : Ty

-- The `map` over the arguments, `collect`ed.
abbrev pub map_args : (Ty → M Ty) → Args → M Args
map_args rec nil = pure nil
map_args rec (cons a ts) = do b ← rec a; us ← map_args rec ts; pure (cons b us)

-- A resolved type, with `at` in place of its variable, or `rec` on its arguments.
abbrev pub replace_root : (ℕ → Ty) → (Ty → M Ty) → Ty → M Ty
replace_root at rec (var v) = pure (at v)
replace_root at rec (con c ts) = do us ← map_args rec ts; pure (con c us)

unfoldable pub resolve_deep : ℕ → Ty → M Ty
resolve_deep zero t s = out_of_fuel
resolve_deep (suc f) t s = and_then (resolve f t s) (replace_root var (resolve_deep f))

-- A `HashMap` made from pairs: the last pair of a key counts.
abbrev pub or_else : Option Ty → Option Ty → Option Ty
or_else none o = o
or_else (some t) o = some t

abbrev pub get : List (ℕ × Ty) → ℕ → Option Ty
get [] v = none
get ((k, t) ∷ rest) v = or_else (get rest v) (if k == v then some t else none)

abbrev pub unwrap_or_var : ℕ → Option Ty → Ty
unwrap_or_var v none = var v
unwrap_or_var v (some t) = t

abbrev pub get_or_var : List (ℕ × Ty) → ℕ → Ty
get_or_var map v = unwrap_or_var v (get map v)

unfoldable pub subst_vars : ℕ → List (ℕ × Ty) → Ty → M Ty
subst_vars zero map t s = out_of_fuel
subst_vars (suc f) map t s =
    and_then (resolve f t s) (replace_root (get_or_var map) (subst_vars f map))

abbrev pub contains : ℕ → List ℕ → Bool
contains v [] = false
contains v (x ∷ xs) = (x == v) || contains v xs

abbrev pub push_new : Bool → ℕ → List ℕ → List ℕ
push_new wanted v out = if wanted && not (contains v out) then out ++ v ∷ [] else out

abbrev pub collect_args : (Ty → List ℕ → M (List ℕ)) → Args → List ℕ → M (List ℕ)
collect_args rec nil out = pure out
collect_args rec (cons a ts) out = do o ← rec a out; collect_args rec ts o

abbrev pub collect_root : (Ty → List ℕ → M (List ℕ)) → List ℕ → Ty → M (List ℕ)
collect_root rec out (var v) s =
    and_then (level_of v s) (λ l s'. ok (push_new (ltb s'.level l) v out, s'))
collect_root rec out (con c ts) s = collect_args rec ts out s

unfoldable pub collect_generalizable : ℕ → Ty → List ℕ → M (List ℕ)
collect_generalizable zero t out s = out_of_fuel
collect_generalizable (suc f) t out s =
    and_then (resolve f t s) (collect_root (collect_generalizable f) out)

unfoldable pub generalize : ℕ → Ty → M Scheme
unfolding collect_generalizable
generalize f t = do vars ← collect_generalizable f t []; pure (record { vars = vars; ty = t })

unfoldable pub fresh_err_set : TypeStore → Ty × TypeStore
unfolding fresh
fresh_err_set s =
    ((fresh s).0, record (fresh s).1 { err_set_vars = length s.slots ∷ s.err_set_vars })

-- The new variables for the quantified ones.
unfoldable pub fresh_for : List ℕ → TypeStore → List Ty × TypeStore
unfolding fresh fresh_err_set
fresh_for [] s = ([], s)
fresh_for (v ∷ vs) s =
    let (t, s') = if contains v s.err_set_vars then fresh_err_set s else fresh s in
    let (ts, s'') = fresh_for vs s' in (t ∷ ts, s'')

abbrev pub zip : List ℕ → List Ty → List (ℕ × Ty)
zip [] ts = []
zip (v ∷ vs) [] = []
zip (v ∷ vs) (t ∷ ts) = (v, t) ∷ zip vs ts

abbrev pub instantiate_with :
    ℕ → Ty → List ℕ → List Ty × TypeStore → Run ((Ty × List Ty) × TypeStore)
instantiate_with f t vars (ts, s) = and_then (subst_vars f (zip vars ts) t s) (λ u. pure (u, ts))

abbrev pub instantiate_vars : ℕ → Ty → List ℕ → M (Ty × List Ty)
instantiate_vars f t [] s = ok ((t, []), s)
instantiate_vars f t (v ∷ vs) s = instantiate_with f t (v ∷ vs) (fresh_for (v ∷ vs) s)

unfoldable pub instantiate : ℕ → Scheme → M (Ty × List Ty)
unfolding subst_vars fresh_for
instantiate f scheme = instantiate_vars f scheme.ty scheme.vars
