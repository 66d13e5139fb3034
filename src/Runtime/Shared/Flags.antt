-- ===== src/Runtime/Shared/Flags.antt =====
-- For `set_shared` of crates/wsharp-runtime/src/worker.rs, in any order of calls.
use wsharp.Prelude.{ℕ, ◌+◌, ◌<◌, ◌≡◌, Bool, true, false, List, [], ◌∷◌, ◌==◌, if◌then◌else◌, length}
use wsharp.Runtime.Shared.{Shared}

abbrev pub as_one : Bool → ℕ
as_one true = 1
as_one false = 0

-- How many workers raise the flag.
abbrev pub raised : List Bool → ℕ
raised [] = 0
raised (b ∷ bs) = as_one b + raised bs

-- The count is of the workers that raise the flag, and the flag says whether there is one.
pub record IsCounted (workers : ℕ) (s : Shared) : Type 0 where
  pub size : length s.own ≡ workers
  pub counted : s.count ≡ raised s.own
  pub flagged : s.flag ≡ (if s.count == 0 then 0 else 1)

abbrev pub AllWorkers : ℕ → List (Bool × ℕ) → Type 0
AllWorkers workers [] = Unit
AllWorkers workers ((on, i) ∷ calls) = (i < workers) × AllWorkers workers calls
