-- ===== src/Sema/Ty/Subst.antt =====
-- Laws of substitution, size and occurrence for the types of crates/wsharp-sema/src/ty.rs.
use wsharp.Prelude.{ℕ, suc, ◌≤◌, ◌≡◌, refl, ap, true, false, arith, ◌==◌, if◌then◌else◌}
use wsharp.Sema.Ty.{Ty, TyCon, Args, var, con, nil, cons, subst_ty, size, has_var, count_args}
use wsharp.Sema.Ty.{subst_args, size_args, has_var_args}

mutual
  unfolding subst_ty

  subst_var_lem : (θ : ℕ → Ty) → ((v : ℕ) → θ v ≡ var v) → (t : Ty) → subst_ty θ t ≡ t
  subst_var_lem θ h (var v) = h v
  subst_var_lem θ h (con c ts) = ap (con c) (subst_args_var_lem θ h ts)

  subst_args_var_lem : (θ : ℕ → Ty) → ((v : ℕ) → θ v ≡ var v) → (ts : Args) → subst_args θ ts ≡ ts
  subst_args_var_lem θ h nil = refl
  subst_args_var_lem θ h (cons a ts) = cc (subst_var_lem θ h a, subst_args_var_lem θ h ts)

mutual
  unfolding subst_ty

  subst_comp_lem :
      (θ σ τ : ℕ → Ty)
      → ((v : ℕ) → subst_ty σ (θ v) ≡ τ v)
      → (t : Ty) → subst_ty σ (subst_ty θ t) ≡ subst_ty τ t
  subst_comp_lem θ σ τ h (var v) = h v
  subst_comp_lem θ σ τ h (con c ts) = ap (con c) (subst_args_comp_lem θ σ τ h ts)

  subst_args_comp_lem :
      (θ σ τ : ℕ → Ty)
      → ((v : ℕ) → subst_ty σ (θ v) ≡ τ v)
      → (ts : Args) → subst_args σ (subst_args θ ts) ≡ subst_args τ ts
  subst_args_comp_lem θ σ τ h nil = refl
  subst_args_comp_lem θ σ τ h (cons a ts) =
      cc (subst_comp_lem θ σ τ h a, subst_args_comp_lem θ σ τ h ts)

-- The substitution of `u` for `x`.
abbrev pub single : ℕ → Ty → ℕ → Ty
single x u v = if v == x then u else var v

mutual
  unfolding subst_ty has_var

  single_fresh_lem : (x : ℕ) (u t : Ty) → has_var x t ≡ false → subst_ty (single x u) t ≡ t
  single_fresh_lem x u (var v) h = ground arith
  single_fresh_lem x u (con c ts) h = ap (con c) (single_fresh_args x u ts h)

  single_fresh_args :
      (x : ℕ) (u : Ty) (ts : Args) → has_var_args x ts ≡ false → subst_args (single x u) ts ≡ ts
  single_fresh_args x u nil h = refl
  single_fresh_args x u (cons a ts) h =
      ground (arith, single_fresh_lem x u a, single_fresh_args x u ts)

mutual
  unfolding size

  size_pos_lem : (t : Ty) → 1 ≤ size t
  size_pos_lem (var v) = omega arith
  size_pos_lem (con c ts) = omega (arith)

  size_args_pos_lem : (ts : Args) → 0 ≤ size_args ts
  size_args_pos_lem nil = omega arith
  size_args_pos_lem (cons a ts) = omega (arith, size_pos_lem a)

mutual
  unfolding subst_ty has_var size

  size_occurs :
      (τ : ℕ → Ty) (x : ℕ) (t : Ty) → has_var x t ≡ true → size (τ x) ≤ size (subst_ty τ t)
  size_occurs τ x (var v) h = ground arith
  size_occurs τ x (con c ts) h = omega (arith, size_occurs_args τ x ts h)

  size_occurs_args :
      (τ : ℕ → Ty) (x : ℕ) (ts : Args)
      → has_var_args x ts ≡ true
      → size (τ x) ≤ size_args (subst_args τ ts)
  size_occurs_args τ x nil h = cc
  size_occurs_args τ x (cons a ts) h = ground (arith, size_occurs τ x a, size_occurs_args τ x ts)

pub subst_id : (θ : ℕ → Ty) → ((v : ℕ) → θ v ≡ var v) → (t : Ty) → subst_ty θ t ≡ t
subst_id θ h t = subst_var_lem θ h t

pub subst_args_id : (θ : ℕ → Ty) → ((v : ℕ) → θ v ≡ var v) → (ts : Args) → subst_args θ ts ≡ ts
subst_args_id θ h ts = subst_args_var_lem θ h ts

module _ (θ σ τ : ℕ → Ty) (h : (v : ℕ) → subst_ty σ (θ v) ≡ τ v) where
  pub subst-subst : (t : Ty) → subst_ty σ (subst_ty θ t) ≡ subst_ty τ t
  subst-subst t = subst_comp_lem θ σ τ h t

  pub subst_args-subst_args : (ts : Args) → subst_args σ (subst_args θ ts) ≡ subst_args τ ts
  subst_args-subst_args ts = subst_args_comp_lem θ σ τ h ts

pub single_fresh : (x : ℕ) (u t : Ty) → has_var x t ≡ false → subst_ty (single x u) t ≡ t
single_fresh x u t h = single_fresh_lem x u t h

pub size_pos : (t : Ty) → 1 ≤ size t
size_pos t = size_pos_lem t

-- No substitution equates a variable with a constructor that contains it.
pub occurs_no_unifier :
    (τ : ℕ → Ty) (x : ℕ) (c : TyCon) (ts : Args)
    → has_var x (con c ts) ≡ true
    → ¬ (τ x ≡ subst_ty τ (con c ts))
unfolding subst_ty has_var size
occurs_no_unifier τ x c ts h e = omega (arith, size_occurs_args τ x ts h, ap size e)

pub count-subst_args : (τ : ℕ → Ty) (ts : Args) → count_args (subst_args τ ts) ≡ count_args ts
unfolding subst_ty
count-subst_args τ nil = refl
count-subst_args τ (cons a ts) = ap suc (count-subst_args τ ts)
