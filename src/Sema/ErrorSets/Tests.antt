-- ===== src/Sema/ErrorSets/Tests.antt =====
-- Sets asked for on a new store, and the theorems at these inputs.
use wsharp.Prelude.{ℕ, ◌≡◌, refl, List, [], ◌∷◌, arith}
use wsharp.Sema.Ty.{con, nil, error_set}
use wsharp.Sema.Store.{new}
use wsharp.Sema.Schemes.{contains}
use wsharp.Sema.ErrorSets.{err_set, err_set_members}
use wsharp.Sema.ErrorSets.Interned.{
  IsInterned, new-IsInterned, err_set_members-err_set, err_set-same,
}

-- Two spellings of one set.
abbrev spelled : List ℕ
spelled = 2 ∷ 0 ∷ 2 ∷ []

abbrev spelled' : List ℕ
spelled' = 0 ∷ 2 ∷ []

members_run : err_set_members 0 (err_set spelled new).1 ≡ 0 ∷ 2 ∷ []
unfolding err_set err_set_members
members_run = refl

other_run : (err_set (1 ∷ []) (err_set spelled new).1).0 ≡ con (error_set 1) nil
unfolding err_set
other_run = refl

err_set_members-err_set_example :
    (id : ℕ) × ((err_set spelled new).0 ≡ con (error_set id) nil)
    × ((x : ℕ) → contains x (err_set_members id (err_set spelled new).1) ≡ contains x spelled)
    × IsInterned (err_set spelled new).1
err_set_members-err_set_example = err_set_members-err_set new new-IsInterned spelled

same_members : (x : ℕ) → contains x spelled ≡ contains x spelled'
same_members x = ground arith

err_set-same_example : (err_set spelled' (err_set spelled new).1).0 ≡ (err_set spelled new).0
err_set-same_example = err_set-same new new-IsInterned spelled spelled' same_members

same_run : (err_set spelled' (err_set spelled new).1).0 ≡ (err_set spelled new).0
unfolding err_set
same_run = refl
