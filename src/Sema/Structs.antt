-- ===== src/Sema/Structs.antt =====
-- The lattice of structs, crates/wsharp-sema/src/ty.rs: `declare_struct`, `set_struct_parent`,
-- `clear_struct_parent`, `struct_parent` and `is_subtype`. The loop of `is_subtype` takes fuel for its
-- rounds.
pub mod Chains
mod Tests
use Prim.Native.String.{String}
use wsharp.Prelude.{
  ℕ, zero, suc, Bool, true, false, Option, none, some, List, [], ◌∷◌, ◌++◌, ◌==◌, if◌then◌else◌,
  length, get_elem?, set,
}
use wsharp.Sema.Store.{TypeStore, Run, ok, panic, out_of_fuel}

unfoldable pub declare_struct : String → TypeStore → ℕ × TypeStore
declare_struct name s = (
  length s.struct_names,
  record s {
    struct_names = s.struct_names ++ name ∷ [];
    struct_parents = s.struct_parents ++ none ∷ [];
  },
)

-- A write to `struct_parents[id]`.
abbrev pub parent_written : ℕ → Option ℕ → TypeStore → Option (Option ℕ) → Run TypeStore
parent_written id p s none = panic
parent_written id p s (some old) = ok (record s { struct_parents = set s.struct_parents id p })

unfoldable pub set_struct_parent : ℕ → ℕ → TypeStore → Run TypeStore
set_struct_parent id parent s = parent_written id (some parent) s (get_elem? s.struct_parents id)

unfoldable pub clear_struct_parent : ℕ → TypeStore → Run TypeStore
clear_struct_parent id s = parent_written id none s (get_elem? s.struct_parents id)

-- The step of the loop to `struct_parents[id]`.
abbrev pub go_up : (Option ℕ → Run Bool) → Option (Option ℕ) → Run Bool
go_up rec none = panic
go_up rec (some p) = rec p

unfoldable pub subtype_loop : ℕ → List (Option ℕ) → ℕ → Option ℕ → Run Bool
subtype_loop f parents sup none = ok false
subtype_loop zero parents sup (some id) = out_of_fuel
subtype_loop (suc f) parents sup (some id) =
    let rest = go_up (subtype_loop f parents sup) (get_elem? parents id) in
    if id == sup then ok true else rest

unfoldable pub is_subtype : ℕ → ℕ → ℕ → TypeStore → Run Bool
unfolding subtype_loop
is_subtype f sub sup s = subtype_loop f s.struct_parents sup (some sub)
