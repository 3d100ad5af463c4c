-- ===== src/Prelude/Results.antt =====
-- A call that returns a value or raises an exception.
pub data Result {ℓ} (A : Type ℓ) : Type ℓ where
  returned : A → Result A
  raises : Result A
