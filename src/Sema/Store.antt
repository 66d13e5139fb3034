-- ===== src/Sema/Store.antt =====
-- `TypeStore` of crates/wsharp-sema/src/ty.rs: the arena of type variables, its trail, the struct
-- lattice and the interned error sets. A method is a function in a state monad; an index out of
-- range and a failed `expect` are `panic`, and a loop of the model without fuel is `out_of_fuel`.
pub mod Trail
pub use wsharp.Prelude.Run.{Run, ok, panic, out_of_fuel}
use wsharp.Prelude.{
  ℕ, suc, ◌+◌, ◌≡◌, ◌-◌, Bool, true, false, Option, none, some, List, [], ◌∷◌, ◌++◌, ltb,
  if◌then◌else◌, length, get_elem?, set,
}
use Prim.Native.String.{String}
use wsharp.Sema.Ty.{Ty, var}

pub data Slot : Type 0 where
  unbound : ℕ → Slot
  bound : Ty → Slot

-- `trail` has its top first. The two interning maps and the set of variables are lists.
pub record TypeStore : Type 0 where
  pub slots : List Slot
  pub level : ℕ
  pub trail : List (ℕ × Slot)
  pub struct_names : List String
  pub struct_parents : List (Option ℕ)
  pub error_names : List String
  pub error_ids : List (String × ℕ)
  pub err_sets : List (List ℕ)
  pub err_set_ids : List (List ℕ × ℕ)
  pub err_set_vars : List ℕ
  pub service_names : List String

abbrev pub new : TypeStore
new = record {
  slots = [];
  level = 0;
  trail = [];
  struct_names = [];
  struct_parents = [];
  error_names = [];
  error_ids = [];
  err_sets = [];
  err_set_ids = [];
  err_set_vars = [];
  service_names = [];
}

abbrev pub M : Type 0 → Type 0
M A = TypeStore → Run (A × TypeStore)

abbrev pub pure : {A : Type 0} → A → M A
pure a s = ok (a, s)

abbrev pub and_then : {A B : Type 0} → Run (A × TypeStore) → (A → M B) → Run (B × TypeStore)
and_then (ok (a, s)) k = k a s
and_then panic k = panic
and_then out_of_fuel k = out_of_fuel

infixl 5 ◌>>=◌ ◌>>◌
abbrev pub ◌>>=◌ : {A B : Type 0} → M A → (A → M B) → M B
◌>>=◌ m k s = and_then (m s) k

abbrev pub ◌>>◌ : {B : Type 0} → M (Unit {0}) → M B → M B
◌>>◌ m k s = and_then (m s) (λ _. k)

abbrev pub wrote : ℕ → Slot → Slot → TypeStore → TypeStore
wrote v x old s = record s { slots = set s.slots v x; trail = (v, old) ∷ s.trail }

abbrev pub written : ℕ → Slot → TypeStore → Option Slot → Run (Unit {0} × TypeStore)
written v x s none = panic
written v x s (some old) = ok (tt, wrote v x old s)

unfoldable pub set_slot : ℕ → Slot → M (Unit {0})
set_slot v x s = written v x s (get_elem? s.slots v)

abbrev pub Snapshot : Type 0
Snapshot = ℕ

unfoldable pub snapshot : TypeStore → Snapshot
snapshot s = length s.trail

pub set_slot_lem :
    (v : ℕ) (x old : Slot) (s : TypeStore)
    → get_elem? s.slots v ≡ some old
    → set_slot v x s ≡ ok (tt, wrote v x old s)
unfolding set_slot
set_slot_lem v x old s e = rw (e, set_slot)

-- The loop of `rollback_to`, over the trail that is left: pop while it is longer than the mark.
abbrev pub unwind : Snapshot → List Slot → List (ℕ × Slot) → List Slot × List (ℕ × Slot)
unwind n slots [] = (slots, [])
unwind n slots ((v, old) ∷ rest) =
    let more = unwind n (set slots v old) rest in
    if ltb n (suc (length rest)) then more else (slots, (v, old) ∷ rest)

unfoldable pub rollback_to : Snapshot → TypeStore → TypeStore
rollback_to n s = record s {
  slots = (unwind n s.slots s.trail).0;
  trail = (unwind n s.slots s.trail).1;
}

unfoldable pub fresh : TypeStore → Ty × TypeStore
fresh s = (var (length s.slots), record s { slots = s.slots ++ unbound s.level ∷ [] })

unfoldable pub enter_level : TypeStore → TypeStore
enter_level s = record s { level = s.level + 1 }

-- The level that a slot has; a bound one counts as the innermost.
abbrev pub level_at : Option Slot → ℕ
level_at none = 0
level_at (some (unbound l)) = l
level_at (some (bound t)) = 0xffff_ffff

abbrev pub level_in : Option Slot → TypeStore → Run (ℕ × TypeStore)
level_in none s = panic
level_in (some (unbound l)) s = ok (l, s)
level_in (some (bound t)) s = ok (0xffff_ffff, s)

unfoldable pub level_of : ℕ → M ℕ
level_of v s = level_in (get_elem? s.slots v) s

pub level_of_lem :
    (v l : ℕ) (s : TypeStore) → get_elem? s.slots v ≡ some (unbound l) → level_of v s ≡ ok (l, s)
unfolding level_of
level_of_lem v l s e = rw (e, level_of)
