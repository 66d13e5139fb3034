-- ===== src/Sema/Ty.antt =====
-- Types, crates/wsharp-sema/src/ty.rs: `IntTy`, `TyCon` and `Type` (here `Ty`, with its argument
-- lists as `Args`), and substitution on them.
pub mod Subst
use wsharp.Prelude.{ℕ, suc, ◌+◌, Bool, false, ◌||◌, ◌==◌, ℕ_discrete}

pub record IntTy : Type 0 where
  pub signed : Bool
  pub bits : ℕ

pub data TyCon : Type 0 where
  int : IntTy → TyCon
  f64 bool void str fn optional err_union error array : TyCon
  worker error_set struct abstract : ℕ → TyCon

unfoldable pub TyCon-discrete : Discrete TyCon
TyCon-discrete = hlevel ℕ_discrete

mutual
  pub data Ty : Type 0 where
    var : ℕ → Ty
    con : TyCon → Args → Ty

  pub data Args : Type 0 where
    nil : Args
    cons : Ty → Args → Args

-- The number of arguments, `args.len()`.
abbrev pub count_args : Args → ℕ
count_args nil = 0
count_args (cons a ts) = suc (count_args ts)

unfoldable mutual
  pub subst_ty : (ℕ → Ty) → Ty → Ty
  subst_ty θ (var v) = θ v
  subst_ty θ (con c ts) = con c (subst_args θ ts)

  pub subst_args : (ℕ → Ty) → Args → Args
  subst_args θ nil = nil
  subst_args θ (cons a ts) = cons (subst_ty θ a) (subst_args θ ts)

unfoldable mutual
  pub size : Ty → ℕ
  size (var v) = 1
  size (con c ts) = suc (size_args ts)

  pub size_args : Args → ℕ
  size_args nil = 0
  size_args (cons a ts) = size a + size_args ts

unfoldable mutual
  pub has_var : ℕ → Ty → Bool
  has_var x (var v) = v == x
  has_var x (con c ts) = has_var_args x ts

  pub has_var_args : ℕ → Args → Bool
  has_var_args x nil = false
  has_var_args x (cons a ts) = has_var x a || has_var_args x ts
