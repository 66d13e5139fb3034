-- ===== src/Sema/Unify/Outcome.antt =====
-- What is asked of a run of unification, crates/wsharp-sema/src/ty.rs.
use wsharp.Prelude.{
  ℕ, suc, ◌≤◌, ◌<◌, ◌≡◌, refl, sym, ◌∙◌, ap, ◌⊎◌, inl, inr, true, some, List, arith, get_elem?,
  ◌==◌, ==_refl, Bool-cases, ==→≡,
}
use wsharp.Sema.Ty.{Ty, var, has_var, subst_ty}
use wsharp.Sema.Ty.Subst.{single, single_fresh, subst_id}
use wsharp.Sema.Store.{Slot, unbound, TypeStore, Run, ok}
use wsharp.Sema.Unify.{Unified, done, mismatch, occurs, bind}
use wsharp.Sema.Unify.Meaning.{deep, open_count}
use wsharp.Sema.Unify.Resolve.{Keeps}
use wsharp.Sema.Unify.Bind.{Bound, bind_total}

-- `P` says of a substitution that it is a unifier.
pub record Solved (slots slots' : List Slot) (P : (ℕ → Ty) → Type 0) : Type 0 where
  pub answer : ℕ → Ty
  pub means :
      (k : ℕ) (a w : Ty)
      → deep slots k a ≡ some w
      → (j : ℕ) × (deep slots' j a ≡ some (subst_ty answer w))
  pub unifies : P answer
  pub general : (τ : ℕ → Ty) → P τ → (v : ℕ) → subst_ty τ (answer v) ≡ τ v
  pub progress :
      ((v : ℕ) → answer v ≡ var v) × (open_count slots' ≡ open_count slots)
      ⊎ (open_count slots' < open_count slots)

abbrev pub Post : ((ℕ → Ty) → Type 0) → List Slot → Unified → List Slot → Type 0
Post P slots done slots' = Solved slots slots' P
Post P slots mismatch slots' = (τ : ℕ → Ty) → ¬ P τ
Post P slots occurs slots' = (τ : ℕ → Ty) → ¬ P τ

-- With enough fuel the run returns, always the same.
pub record Outcome (P : (ℕ → Ty) → Type 0) (s : TypeStore) (run : ℕ → Run (Unified × TypeStore))
    : Type 0 where
  pub result : Unified
  pub store : TypeStore
  pub fuel : ℕ
  pub runs : (f : ℕ) → fuel ≤ f → run f ≡ ok (result, store)
  pub post : Post P s.slots result store.slots

module _ (P : (ℕ → Ty) → Type 0) where
  Solved-Keeps : {p q r : List Slot} → Keeps p q → Solved q r P → Solved p r P
  Solved-Keeps k s = record {
    answer = s.answer;
    means = λ h a w e. s.means h a w (k.means h a w e);
    unifies = s.unifies;
    general = s.general;
    progress = elim s.progress [
      | inl (same, n) ↦ inl (same, n ∙ k.count)
      | inr lt ↦ inr (omega (arith, k.count))
    ];
  }

  pub Post-Keeps :
      {p q : List Slot} (r : List Slot) → Keeps p q → (u : Unified) → Post P q u r → Post P p u r
  Post-Keeps r k done s = Solved-Keeps k s
  Post-Keeps r k mismatch h = h
  Post-Keeps r k occurs h = h

-- The same for another way to say `unifier`.
module _ {P Q : (ℕ → Ty) → Type 0} (to : (τ : ℕ → Ty) → P τ → Q τ)
    (from : (τ : ℕ → Ty) → Q τ → P τ) where
  pub Post-iff : (p q : List Slot) (u : Unified) → Post P p u q → Post Q p u q
  Post-iff p q done s = record {
    answer = s.answer;
    means = s.means;
    unifies = to s.answer s.unifies;
    general = λ τ h. s.general τ (from τ h);
    progress = s.progress;
  }
  Post-iff p q mismatch h = λ τ q. h τ (from τ q)
  Post-iff p q occurs h = λ τ q. h τ (from τ q)

  pub Outcome-iff :
      {s : TypeStore} {run : ℕ → Run (Unified × TypeStore)} → Outcome P s run → Outcome Q s run
  Outcome-iff {s} o = record {
    result = o.result;
    store = o.store;
    fuel = o.fuel;
    runs = o.runs;
    post = Post-iff s.slots o.store.slots o.result o.post;
  }

-- Two equal types.
pub Solved-same : {P : (ℕ → Ty) → Type 0} (slots : List Slot) → P var → Solved slots slots P
Solved-same slots p = record {
  answer = var;
  means = λ k a w e. (k, rw (subst_id var (λ v. refl) w) e);
  unifies = p;
  general = λ τ h v. unfold subst_ty in refl;
  progress = inl (λ v. refl, refl);
}

pub Outcome-bind :
    (s : TypeStore) (h x l : ℕ) (t u : Ty)
    → get_elem? s.slots x ≡ some (unbound l)
    → deep s.slots h t ≡ some u
    → (has_var x u ≡ true → (τ : ℕ → Ty) → ¬ (τ x ≡ subst_ty τ u))
    → Outcome (λ τ. τ x ≡ subst_ty τ u) s (λ f. bind f x t s)
Outcome-bind s h x l t u at e never = elim (Bool-cases (has_var x u)) [
  | inl found ↦ record {
    result = occurs;
    store = b.store;
    fuel = suc h;
    runs = λ f le. rw found at (b.runs f le);
    post = never found;
  }
  | inr clear ↦ record {
    result = done;
    store = b.store;
    fuel = suc h;
    runs = λ f le. rw clear at (b.runs f le);
    post = record {
      answer = single x u;
      means = b.means clear;
      unifies = rw (==_refl x, single_fresh x u u clear) refl;
      general = λ τ p v. elim (Bool-cases (v == x)) [
        | inl hit ↦ let same = ==→≡ v x hit in rw hit (sym p ∙ ap τ (sym same))
        | inr miss ↦ rw miss (unfold subst_ty in refl)
      ];
      progress = inr (b.fewer clear);
    };
  }
]
  where
    b : Bound s h x t u
    b = bind_total s h x l t u at e
