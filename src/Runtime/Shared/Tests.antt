-- ===== src/Runtime/Shared/Tests.antt =====
-- Runs of the shared flags.
use wsharp.Prelude.{ℕ, ◌≡◌, refl, Bool, true, false, List, [], ◌∷◌}
use wsharp.Prelude.Run.{ok}
use wsharp.Runtime.Shared.{Shared, set_shared, set_all}

abbrev nobody : Shared
nobody = record { flag = 0; count = 0; own = false ∷ false ∷ [] }

-- Two workers want a pause, and one has had it.
abbrev calls : List (Bool × ℕ)
calls = (true, 0) ∷ (true, 1) ∷ (false, 0) ∷ []

set_all_run : set_all calls nobody ≡ ok (record { flag = 1; count = 1; own = false ∷ true ∷ [] })
unfolding set_all set_shared
set_all_run = refl
