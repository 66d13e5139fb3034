-- ===== src/Sema/ErrorSets.antt =====
-- Sets of errors, crates/wsharp-sema/src/ty.rs: `err_set`, `err_set_members` and `as_err_set`. A set
-- is interned as the sorted list of its members, each once.
pub mod Canonical
pub mod Interned
mod Tests
use wsharp.Prelude.{
  ℕ, same_list, suc, Bool, true, false, ◌&&◌, Option, none, some, List, [], ◌∷◌, ◌++◌, ◌==◌, leb,
  if◌then◌else◌, length, get_elem?,
}
use wsharp.Sema.Ty.{Ty, TyCon, var, con, nil, error_set}
use wsharp.Sema.Store.{TypeStore, M, pure, and_then, ok}
use wsharp.Sema.Unify.{resolve}

-- `sort_unstable` on numbers.
abbrev pub sorted_in : ℕ → List ℕ → List ℕ
sorted_in a [] = a ∷ []
sorted_in a (x ∷ xs) = let rest = sorted_in a xs in if leb a x then a ∷ x ∷ xs else x ∷ rest

abbrev pub sort_unstable : List ℕ → List ℕ
sort_unstable [] = []
sort_unstable (x ∷ xs) = sorted_in x (sort_unstable xs)

-- `dedup`: of equal neighbours one stays.
abbrev pub dedup : List ℕ → List ℕ
dedup [] = []
dedup (x ∷ []) = x ∷ []
dedup (x ∷ y ∷ rest) = let later = dedup (y ∷ rest) in if x == y then later else x ∷ later

-- `HashMap::get`.
abbrev pub id_of : List ℕ → List (List ℕ × ℕ) → Option ℕ
id_of key [] = none
id_of key ((k, id) ∷ rest) =
    let later = id_of key rest in if same_list k key then some id else later

abbrev pub interned : List ℕ → TypeStore → Option ℕ → ℕ × TypeStore
interned errors s (some id) = (id, s)
interned errors s none = (
  length s.err_sets,
  record s {
    err_sets = s.err_sets ++ errors ∷ [];
    err_set_ids = (errors, length s.err_sets) ∷ s.err_set_ids;
  },
)

abbrev pub as_type : ℕ × TypeStore → Ty × TypeStore
as_type (id, s) = (con (error_set id) nil, s)

unfoldable pub err_set : List ℕ → TypeStore → Ty × TypeStore
err_set errors s =
    let key = dedup (sort_unstable errors) in as_type (interned key s (id_of key s.err_set_ids))

abbrev pub or_empty : Option (List ℕ) → List ℕ
or_empty none = []
or_empty (some errors) = errors

unfoldable pub err_set_members : ℕ → TypeStore → List ℕ
err_set_members id s = or_empty (get_elem? s.err_sets id)

abbrev pub set_of_root : Ty → M (Option (List ℕ))
set_of_root (con (error_set id) ts) s = ok (some (err_set_members id s), s)
set_of_root root s = ok (none, s)

unfoldable pub as_err_set : ℕ → Ty → M (Option (List ℕ))
unfolding err_set_members
as_err_set f t s = and_then (resolve f t s) set_of_root
