-- ===== src/Sema/Unify/Undo.antt =====
-- For `try_unify_checked` of crates/wsharp-sema/src/ty.rs: what it undoes. Every method of unification
-- writes the store through `set_slot`.
use wsharp.Prelude.{
  ℕ, zero, suc, ◌≡◌, refl, ◌≢◌, Bool, true, false, Option, none, some, arith, ltb, ◌==◌, get_elem?,
  if◌then◌else◌,
}
use wsharp.Sema.Ty.{Ty, Args, TyCon-discrete, var, con, nil, cons, count_args}
use wsharp.Sema.Store.{
  Slot, unbound, bound, TypeStore, Run, ok, panic, out_of_fuel, M, and_then, set_slot, level_of,
  snapshot, written, level_in, pure, ◌>>◌,
}
use wsharp.Sema.Store.Trail.{Writes, start, Writes-trans, rollback_to-Writes, set_slot-Writes}
use wsharp.Sema.Unify.{
  Unified, done, mismatch, occurs, try_with, resolve, resolve_slot, adjust, occurs_args,
  occurs_root, occurs_and_adjust, bind, unify_args, unify_cons, unify_roots, unify, keep_or_undo,
  try_unify_checked,
}

-- A normal return has written through `set_slot` only.
abbrev Tracked : {A : Type 0} → TypeStore → Run (A × TypeStore) → Type 0
Tracked s (ok (a, t)) = Writes s t
Tracked s panic = Unit
Tracked s out_of_fuel = Unit

abbrev Tracks : {A : Type 0} → M A → Type 0
Tracks m = (s : TypeStore) → Tracked s (m s)

Tracked-widen :
    {A : Type 0} {s t : TypeStore}
    → Writes s t
    → (r : Run (A × TypeStore)) → Tracked t r
    → Tracked s r
Tracked-widen w (ok (b, u)) w' = Writes-trans w w'
Tracked-widen w panic w' = tt
Tracked-widen w out_of_fuel w' = tt

Tracked-and_then :
    {A B : Type 0} (s : TypeStore) (r : Run (A × TypeStore)) (k : A → M B)
    → Tracked s r
    → ((a : A) → Tracks (k a))
    → Tracked s (and_then r k)
Tracked-and_then s (ok (a, t)) k w h = Tracked-widen w (k a t) (h a t)
Tracked-and_then s panic k w h = tt
Tracked-and_then s out_of_fuel k w h = tt

Tracked-if :
    {A : Type 0} (s : TypeStore) (b : Bool) (m k : M A)
    → Tracks m
    → Tracks k
    → Tracked s ((if b then m else k) s)
Tracked-if s true m k hm hk = hm s
Tracked-if s false m k hm hk = hk s

set_slot-Tracks : (v : ℕ) (x : Slot) → Tracks (set_slot v x)
unfolding set_slot
set_slot-Tracks v x s = of_slot (get_elem? s.slots v) refl
  where
    of_slot : (o : Option Slot) → get_elem? s.slots v ≡ o → Tracked s (written v x s o)
    of_slot none e = tt
    of_slot (some old) e = set_slot-Writes v x s old e

level_of-Tracks : (v : ℕ) → Tracks (level_of v)
unfolding level_of
level_of-Tracks v s = of_slot (get_elem? s.slots v)
  where
    of_slot : (o : Option Slot) → Tracked s (level_in o s)
    of_slot none = tt
    of_slot (some (unbound l)) = start
    of_slot (some (bound t)) = start

set-pure-Tracks : {A : Type 0} (v : ℕ) (x : Slot) (a : A) → Tracks (set_slot v x >> pure a)
set-pure-Tracks v x a s =
    Tracked-and_then s (set_slot v x s) (λ _. pure a) (set_slot-Tracks v x s) (λ _ t. start)

try_with-Tracks : (r : Unified) (k : M Unified) → Tracks k → Tracks (try_with r k)
try_with-Tracks done k h s = h s
try_with-Tracks mismatch k h s = start
try_with-Tracks occurs k h s = start

resolve_slot-Tracks :
    (rec : Ty → M Ty) (v : ℕ) (o : Option Slot)
    → ((t : Ty) → Tracks (rec t))
    → Tracks (resolve_slot rec v o)
resolve_slot-Tracks rec v none h s = tt
resolve_slot-Tracks rec v (some (unbound l)) h s = start
resolve_slot-Tracks rec v (some (bound t)) h s =
    Tracked-and_then s (rec t s) (λ root. set_slot v (bound root) >> pure root) (h t s)
      (λ root. set-pure-Tracks v (bound root) root)

resolve-Tracks : (f : ℕ) (t : Ty) → Tracks (resolve f t)
unfolding resolve
resolve-Tracks f (con c ts) s = start
resolve-Tracks zero (var v) s = tt
resolve-Tracks (suc f) (var v) s =
    resolve_slot-Tracks (resolve f) v (get_elem? s.slots v) (resolve-Tracks f) s

adjust-Tracks : (v level : ℕ) → Tracks (adjust v level)
unfolding adjust
adjust-Tracks v level s =
    Tracked-and_then s (level_of v s) _ (level_of-Tracks v s)
      (λ l t. Tracked-if t (ltb level l) _ _ (set-pure-Tracks v (unbound level) done) (λ u. start))

occurs_args-Tracks :
    (rec : Ty → M Unified) → ((t : Ty) → Tracks (rec t)) → (ts : Args) → Tracks (occurs_args rec ts)
occurs_args-Tracks rec h nil s = start
occurs_args-Tracks rec h (cons a ts) s =
    Tracked-and_then s (rec a s) _ (h a s)
      (λ r. try_with-Tracks r (occurs_args rec ts) (occurs_args-Tracks rec h ts))

occurs_root-Tracks :
    (rec : Ty → M Unified) (x level : ℕ)
    → ((t : Ty) → Tracks (rec t))
    → (root : Ty) → Tracks (occurs_root rec x level root)
occurs_root-Tracks rec x level h (var v) s =
    Tracked-if s (v == x) _ _ (λ t. start) (adjust-Tracks v level)
occurs_root-Tracks rec x level h (con c ts) s = occurs_args-Tracks rec h ts s

occurs_and_adjust-Tracks : (f x level : ℕ) (t : Ty) → Tracks (occurs_and_adjust f x level t)
unfolding occurs_and_adjust
occurs_and_adjust-Tracks zero x level t s = tt
occurs_and_adjust-Tracks (suc f) x level t s =
    Tracked-and_then s (resolve f t s) _ (resolve-Tracks f t s) (
      occurs_root-Tracks (occurs_and_adjust f x level) x level (occurs_and_adjust-Tracks f x level))

bind-Tracks : (f x : ℕ) (t : Ty) → Tracks (bind f x t)
unfolding bind
bind-Tracks f x t s = Tracked-and_then s (level_of x s) _ (level_of-Tracks x s) (λ level u.
    Tracked-and_then u (occurs_and_adjust f x level t u) _ (occurs_and_adjust-Tracks f x level t u)
      (λ r. try_with-Tracks r _ (set-pure-Tracks x (bound t) done)))

unify_args-Tracks :
    (rec : Ty → Ty → M Unified)
    → ((a b : Ty) → Tracks (rec a b))
    → (ts us : Args) → Tracks (unify_args rec ts us)
unify_args-Tracks rec h nil us s = start
unify_args-Tracks rec h (cons a ts) nil s = start
unify_args-Tracks rec h (cons a ts) (cons b us) s =
    Tracked-and_then s (rec a b s) _ (h a b s)
      (λ r. try_with-Tracks r (unify_args rec ts us) (unify_args-Tracks rec h ts us))

unify_roots-Tracks :
    (rec : Ty → Ty → M Unified) (bind_to : ℕ → Ty → M Unified)
    → ((a b : Ty) → Tracks (rec a b))
    → ((x : ℕ) (t : Ty) → Tracks (bind_to x t))
    → (a b : Ty) → Tracks (unify_roots rec bind_to a b)
unify_roots-Tracks rec bind_to h hb (var x) (var y) s =
    Tracked-if s (x == y) _ _ (λ t. start) (hb x (var y))
unify_roots-Tracks rec bind_to h hb (var x) (con d us) s = hb x (con d us) s
unify_roots-Tracks rec bind_to h hb (con c ts) (var y) s = hb y (con c ts) s
unify_roots-Tracks rec bind_to h hb (con c ts) (con d us) s = of_dec (TyCon-discrete c d)
  where
    of_dec : (e : Dec (c ≡ d)) → Tracked s (unify_cons rec ts us e s)
    of_dec (yes same) =
        Tracked-if s (count_args ts == count_args us) _ _ (unify_args-Tracks rec h ts us)
          (λ t. start)
    of_dec (no differ) = start

unify-Tracks : (f : ℕ) (a b : Ty) → Tracks (unify f a b)
unfolding unify
unify-Tracks zero a b s = tt
unify-Tracks (suc f) a b s = Tracked-and_then s (resolve f a s) _ (resolve-Tracks f a s) (λ a' t.
    Tracked-and_then t (resolve f b t) _ (resolve-Tracks f b t)
      (unify_roots-Tracks (unify f) (bind f) (unify-Tracks f) (bind-Tracks f) a'))

-- An attempt that returns an error leaves no trace: slots, trail and all else of the store are as
-- before, whatever the store and the two types are.
pub try_unify_checked-undone :
    (f : ℕ) (a b : Ty) (s t : TypeStore) (r : Unified)
    → try_unify_checked f a b s ≡ ok (r, t)
    → r ≢ done
    → t ≡ s
unfolding try_unify_checked
try_unify_checked-undone f a b s t r e fails = of_run (unify f a b s) (unify-Tracks f a b s) e
  where
    of_run :
        (run : Run (Unified × TypeStore))
        → Tracked s run
        → and_then run (keep_or_undo (snapshot s)) ≡ ok (r, t)
        → t ≡ s
    of_run (ok (done, u)) w e' = absurd (fails (ground (arith)))
    of_run (ok (mismatch, u)) w e' = ground (arith, rollback_to-Writes w)
    of_run (ok (occurs, u)) w e' = ground (arith, rollback_to-Writes w)
    of_run panic w e' = cc
    of_run out_of_fuel w e' = cc
