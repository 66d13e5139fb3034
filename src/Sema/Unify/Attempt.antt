-- ===== src/Sema/Unify/Attempt.antt =====
-- For `try_unify_checked` of crates/wsharp-sema/src/ty.rs: its outcome.
use wsharp.Prelude.{ℕ, ◌≤◌, ◌≡◌, refl, ◌≢◌, some, arith}
use wsharp.Sema.Ty.{Ty}
use wsharp.Sema.Store.{TypeStore, ok, rollback_to, snapshot}
use wsharp.Sema.Unify.{Unified, done, mismatch, occurs, unify, try_unify_checked}
use wsharp.Sema.Unify.Undo.{try_unify_checked-undone}
use wsharp.Sema.Unify.Meaning.{deep}
use wsharp.Sema.Unify.Outcome.{Solved, Post, Outcome}
use wsharp.Sema.Unify.Arguments.{Unifies}
use wsharp.Sema.Unify.Correct.{unify_correct}

-- Success, with a most general unifier in the new store; or an error, the old store, and no unifier.
pub data Attempt (s : TypeStore) (a b : Ty) : Unified → TypeStore → Type 0 where
  solved : {t : TypeStore} → Solved s.slots t.slots (Unifies a b) → Attempt s a b done t
  failed :
      {u : Unified} {t : TypeStore}
      → u ≢ done
      → t ≡ s
      → ((τ : ℕ → Ty) → ¬ Unifies a b τ)
      → Attempt s a b u t

Attempt-of :
    (s t : TypeStore) (a' b' : Ty) (f : ℕ) (a b : Ty) (u : Unified)
    → unify f a b s ≡ ok (u, t)
    → Post (Unifies a' b') s.slots u t.slots
    → (r : TypeStore) × (try_unify_checked f a b s ≡ ok (u, r)) × Attempt s a' b' u r
unfolding try_unify_checked
Attempt-of s t a' b' f a b done e post = (t, rw e refl, solved post)
Attempt-of s t a' b' f a b mismatch e post =
    let runs : try_unify_checked f a b s ≡ ok (mismatch, rollback_to (snapshot s) t) = rw e refl in
    let fails : mismatch ≢ done = ground arith in
    (
      rollback_to (snapshot s) t,
      runs,
      failed fails (try_unify_checked-undone f a b s _ mismatch runs fails) post,
    )
Attempt-of s t a' b' f a b occurs e post =
    let runs : try_unify_checked f a b s ≡ ok (occurs, rollback_to (snapshot s) t) = rw e refl in
    let fails : occurs ≢ done = ground arith in
    (
      rollback_to (snapshot s) t,
      runs,
      failed fails (try_unify_checked-undone f a b s _ occurs runs fails) post,
    )

-- With enough fuel `try_unify_checked` returns, for types that the store gives a meaning: either the two types have a unifier, and the new
-- store means the old one under a most general one, or they have none, and the store is the old one.
pub try_unify_checked_correct :
    (s : TypeStore) (h : ℕ) (a b a' b' : Ty)
    → deep s.slots h a ≡ some a'
    → deep s.slots h b ≡ some b'
    → (fuel : ℕ) × ((f : ℕ)
        → fuel ≤ f
        → (u : Unified) × (t : TypeStore) × (try_unify_checked f a b s ≡ ok (u, t))
          × Attempt s a' b' u t)
try_unify_checked_correct s h a b a' b' ea eb = (
  o.fuel,
  λ f le.
      let (r, runs, found) = Attempt-of s o.store a' b' f a b o.result (o.runs f le) o.post in
      (o.result, r, runs, found),
)
  where
    o : Outcome (Unifies a' b') s (λ f. unify f a b s)
    o = unify_correct s h a b a' b' ea eb
