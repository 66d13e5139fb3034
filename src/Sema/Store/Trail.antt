-- ===== src/Sema/Store/Trail.antt =====
-- The trail of the store, crates/wsharp-sema/src/ty.rs: what `set_slot` records and `rollback_to` reads.
use wsharp.Prelude.{
  ℕ, suc, ◌≤◌, ◌<◌, ◌≡◌, refl, ap, some, List, [], ◌∷◌, arith, lt→ltb, length, some, get_elem?, set,
  set-set_old, Option-cases, inl, inr,
}
use wsharp.Sema.Store.{Slot, TypeStore, ok, set_slot, snapshot, unwind, rollback_to}

-- `t` comes from `s` by calls of `set_slot` alone.
pub data Writes (s : TypeStore) : TypeStore → Type 0 where
  start : Writes s s
  write :
      {t u : TypeStore} → Writes s t → (v : ℕ) (x : Slot) → set_slot v x t ≡ ok (tt, u) → Writes s u

pub Writes-trans : {s t u : TypeStore} → Writes s t → Writes t u → Writes s u
Writes-trans w start = w
Writes-trans w (write w' v x e) = write (Writes-trans w w') v x e

-- One write is undone by popping it.
written-inv :
    (v : ℕ) (x : Slot) (t u : TypeStore)
    → set_slot v x t ≡ ok (tt, u)
    → (old : Slot) × (get_elem? t.slots v ≡ some old)
      × (u ≡ record t { slots = set t.slots v x; trail = (v, old) ∷ t.trail })
unfolding set_slot
written-inv v x t u e = elim (Option-cases (get_elem? t.slots v)) [
  | inl gone ↦ ground (arith, gone)
  | inr (old, found) ↦ (old, found, ground arith)
]

Writes-length : {s t : TypeStore} → Writes s t → length s.trail ≤ length t.trail
Writes-length start = omega arith
Writes-length (write {t} {u} w v x e) =
    let (old, found, same) = written-inv v x t u e in
    omega (arith, Writes-length w, ap (λ (r : TypeStore). length r.trail) same)

unwind_short :
    (n : ℕ) (slots : List Slot) (trail : List (ℕ × Slot))
    → length trail ≤ n
    → unwind n slots trail ≡ (slots, trail)
unwind_short n slots [] h = refl
unwind_short n slots ((v, old) ∷ rest) h = ground arith

unwind-Writes :
    {s t : TypeStore} → Writes s t → unwind (length s.trail) t.slots t.trail ≡ (s.slots, s.trail)
unwind-Writes {s} start = unwind_short (length s.trail) s.slots s.trail (omega arith)
unwind-Writes {s} (write {t} {u} w v x e) =
    let (old, found, same) = written-inv v x t u e in
    let long : length s.trail < suc (length t.trail) = omega (arith, Writes-length w) in
    rw same (rw (lt→ltb _ _ long, set-set_old t.slots v x old found) (unwind-Writes w))

Writes-rest : {s t : TypeStore} → Writes s t → t ≡ record s { slots = t.slots; trail = t.trail }
Writes-rest start = refl
Writes-rest (write {t} {u} w v x e) =
    let (old, found, same) = written-inv v x t u e in ground (arith, Writes-rest w)

-- Whatever a sequence of `set_slot` calls wrote, `rollback_to` the snapshot taken before it gives
-- back the whole store.
pub rollback_to-Writes : {s t : TypeStore} → Writes s t → rollback_to (snapshot s) t ≡ s
unfolding rollback_to snapshot
rollback_to-Writes w = ground (arith, unwind-Writes w, Writes-rest w)

pub set_slot-Writes :
    (v : ℕ) (x : Slot) (s : TypeStore) (old : Slot)
    → get_elem? s.slots v ≡ some old
    → Writes s (record s { slots = set s.slots v x; trail = (v, old) ∷ s.trail })
unfolding set_slot
set_slot-Writes v x s old e = write start v x (rw (e, set_slot))
