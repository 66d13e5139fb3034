-- ===== src/Runtime/Shared.antt =====
-- The flags that generated code reads, crates/wsharp-runtime/src/worker.rs: a byte for all workers, with the count of
-- those that raise it. `set_shared` runs under one lock, so that calls are a sequence. A worker is a place in the list of
-- contributions, and one that is not there is a panic.
pub mod Flags
mod Tests
use wsharp.Prelude.{
  ℕ, ◌+◌, ◌-◌, ◌%◌, ◌^◌, Bool, true, false, Option, none, some, List, [], ◌∷◌, ◌==◌, if◌then◌else◌,
  get_elem?, set,
}
use wsharp.Prelude.Run.{Run, ok, panic, then_run}

pub record Shared : Type 0 where
  pub flag : ℕ
  pub count : ℕ
  pub own : List Bool

abbrev pub same_bool : Bool → Bool → Bool
same_bool true b = b
same_bool false true = false
same_bool false false = true

-- `fetch_add(1) + 1` and `fetch_sub(1) - 1`, of a `usize`.
abbrev pub next_count : Bool → ℕ → ℕ
next_count true count = (count + 1) % 2 ^ 64
next_count false count = (count + 2 ^ 64 - 1) % 2 ^ 64

abbrev pub swapped : Bool → ℕ → Shared → Option Bool → Run Shared
swapped on i s none = panic
swapped on i s (some was) =
    let now = next_count on s.count in
    if same_bool was on
    then ok s
    else ok (record { flag = if now == 0 then 0 else 1; count = now; own = set s.own i on })

unfoldable pub set_shared : Bool → ℕ → Shared → Run Shared
set_shared on i s = swapped on i s (get_elem? s.own i)

-- `request_safepoint` and `clear_poll`, on the shared word of pauses.
abbrev pub request_safepoint : ℕ → Shared → Run Shared
request_safepoint = set_shared true

abbrev pub clear_poll : ℕ → Shared → Run Shared
clear_poll = set_shared false

-- `poll_wanted`.
abbrev pub poll_wanted : Shared → Bool
poll_wanted s = if s.flag == 0 then false else true

unfoldable pub set_all : List (Bool × ℕ) → Shared → Run Shared
set_all [] s = ok s
set_all ((on, i) ∷ calls) s = then_run (set_shared on i s) (set_all calls)
