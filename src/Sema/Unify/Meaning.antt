-- ===== src/Sema/Unify/Meaning.antt =====
-- What a store says of a type, with no writes: `deep`, the type with every bound variable replaced,
-- as `resolve_deep` of crates/wsharp-sema/src/ty.rs replaces it. The number of unbound variables is
-- the measure of unification.
use wsharp.Prelude.{
  ℕ, zero, suc, ◌+◌, ◌≤◌, ◌≡◌, refl, Option, none, some, List, [], ◌∷◌, arith, get_elem?, set,
}
use wsharp.Sema.Ty.{Ty, TyCon, Args, var, con, nil, cons}
use wsharp.Sema.Store.{Slot, unbound, bound}

abbrev pub cons_some : Option Ty → Option Args → Option Args
cons_some (some b) (some us) = some (cons b us)
cons_some (some b) none = none
cons_some none us = none

abbrev pub con_some : TyCon → Option Args → Option Ty
con_some c (some us) = some (con c us)
con_some c none = none

abbrev pub deep_args : (Ty → Option Ty) → Args → Option Args
deep_args rec nil = some nil
deep_args rec (cons a ts) = cons_some (rec a) (deep_args rec ts)

abbrev pub deep_slot : (Ty → Option Ty) → ℕ → Option Slot → Option Ty
deep_slot rec v none = none
deep_slot rec v (some (unbound l)) = some (var v)
deep_slot rec v (some (bound t)) = rec t

-- Fuel bounds the depth; `none` is a variable out of range, or a lack of fuel.
unfoldable pub deep : List Slot → ℕ → Ty → Option Ty
deep slots zero t = none
deep slots (suc h) (var v) = deep_slot (deep slots h) v (get_elem? slots v)
deep slots (suc h) (con c ts) = con_some c (deep_args (deep slots h) ts)

-- `r` means what `t` means, and no deeper.
abbrev pub Shortcut : List Slot → Ty → Ty → Type 0
Shortcut slots t r = (k : ℕ) (u : Ty) → deep slots k t ≡ some u → deep slots k r ≡ some u

pub deep_args-cons :
    (rec : Ty → Option Ty) (a : Ty) (ts us : Args)
    → deep_args rec (cons a ts) ≡ some us
    → (b : Ty) × (bs : Args) × (us ≡ cons b bs) × (rec a ≡ some b) × (deep_args rec ts ≡ some bs)
deep_args-cons rec a ts us e = of_parts (rec a) (deep_args rec ts) refl refl e
  where
    of_parts :
        (o : Option Ty) (p : Option Args)
        → rec a ≡ o
        → deep_args rec ts ≡ p
        → cons_some o p ≡ some us
        → (b : Ty) × (bs : Args) × (us ≡ cons b bs)
          × (rec a ≡ some b)
          × (deep_args rec ts ≡ some bs)
    of_parts (some b) (some bs) eo ep e' = (b, bs, ground arith, eo, ep)
    of_parts (some b) none eo ep e' = absurd (cc)
    of_parts none p eo ep e' = absurd (cc)

pub deep-con :
    (slots : List Slot) (h : ℕ) (c : TyCon) (ts : Args) (u : Ty)
    → deep slots (suc h) (con c ts) ≡ some u
    → (us : Args) × (u ≡ con c us) × (deep_args (deep slots h) ts ≡ some us)
unfolding deep
deep-con slots h c ts u e = of_args (deep_args (deep slots h) ts) refl e
  where
    of_args :
        (p : Option Args)
        → deep_args (deep slots h) ts ≡ p
        → con_some c p ≡ some u
        → (us : Args) × (u ≡ con c us) × (deep_args (deep slots h) ts ≡ some us)
    of_args (some us) ep e' = (us, ground arith, ep)
    of_args none ep e' = absurd (cc)

pub deep_args_mono :
    (f g : Ty → Option Ty)
    → ((t u : Ty) → f t ≡ some u → g t ≡ some u)
    → (ts us : Args) → deep_args f ts ≡ some us
    → deep_args g ts ≡ some us
deep_args_mono f g h nil us e = e
deep_args_mono f g h (cons a ts) us e =
    let (b, bs, same, ea, es) = deep_args-cons f a ts us e in
    cc (h a b ea, deep_args_mono f g h ts bs es)

pub deep-unbound :
    (slots : List Slot) (h v l : ℕ)
    → get_elem? slots v ≡ some (unbound l)
    → deep slots (suc h) (var v) ≡ some (var v)
unfolding deep
deep-unbound slots h v l e = rw e refl

pub deep-bound :
    (slots : List Slot) (h v : ℕ) (t : Ty)
    → get_elem? slots v ≡ some (bound t)
    → deep slots (suc h) (var v) ≡ deep slots h t
unfolding deep
deep-bound slots h v t e = rw e refl

-- A mapping of slots that keeps the meaning of a bound variable, seen one level down.
pub deep_map :
    (slots slots' : List Slot) (h k : ℕ)
    → ((t u : Ty) → deep slots h t ≡ some u → deep slots' k t ≡ some u)
    → ((v : ℕ) (u : Ty)
        → deep slots (suc h) (var v) ≡ some u
        → deep slots' (suc k) (var v) ≡ some u)
    → (t u : Ty) → deep slots (suc h) t ≡ some u
    → deep slots' (suc k) t ≡ some u
unfolding deep
deep_map slots slots' h k below at (var v) u e = at v u e
deep_map slots slots' h k below at (con c ts) u e =
    let (us, same, es) = deep-con slots h c ts u e in
    cc (deep_args_mono (deep slots h) (deep slots' k) below ts us es)

pub deep_slot_mono :
    (f g : Ty → Option Ty)
    → ((t u : Ty) → f t ≡ some u → g t ≡ some u)
    → (v : ℕ) (o : Option Slot) (u : Ty) → deep_slot f v o ≡ some u
    → deep_slot g v o ≡ some u
deep_slot_mono f g h v none u e = e
deep_slot_mono f g h v (some (unbound l)) u e = e
deep_slot_mono f g h v (some (bound t)) u e = h t u e

pub deep_mono :
    (slots : List Slot) (h k : ℕ) (t u : Ty)
    → h ≤ k
    → deep slots h t ≡ some u
    → deep slots k t ≡ some u
unfolding deep
deep_mono slots zero k t u le e = absurd (cc)
deep_mono slots (suc h) zero t u le e = absurd (omega arith)
deep_mono slots (suc h) (suc k) t u le e =
    let below = λ (t' u' : Ty). deep_mono slots h k t' u' (omega arith) in
    deep_map slots slots h k below
      (λ v u'. deep_slot_mono (deep slots h) (deep slots k) below v (get_elem? slots v) u') t u e

-- The number of unbound variables.
abbrev pub weight : Slot → ℕ
weight (unbound l) = 1
weight (bound t) = 0

unfoldable pub open_count : List Slot → ℕ
open_count [] = 0
open_count (x ∷ xs) = weight x + open_count xs

pub open_count-set :
    (slots : List Slot) (v : ℕ) (x old : Slot)
    → get_elem? slots v ≡ some old
    → open_count (set slots v x) + weight old ≡ open_count slots + weight x
unfolding open_count
open_count-set [] v x old e = absurd (cc)
open_count-set (y ∷ ys) zero x old e = let same : y ≡ old = ground arith in rw same (omega arith)
open_count-set (y ∷ ys) (suc v) x old e = omega (arith, open_count-set ys v x old e)
