-- ===== src/Prelude/Run.antt =====
-- The outcome of code that may panic, with `out_of_fuel` for a loop of the model that ran out of rounds.

pub data Run {ℓ} (A : Type ℓ) : Type ℓ where
  ok : A → Run A
  panic : Run A
  out_of_fuel : Run A

abbrev pub then_run {ℓ κ} : {A : Type ℓ} {B : Type κ} → Run A → (A → Run B) → Run B
then_run (ok a) k = k a
then_run panic k = panic
then_run out_of_fuel k = out_of_fuel
