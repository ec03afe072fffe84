-- ===== src/Outcome.antt =====
-- How a call ends: Python exceptions as values. The state comes back beside the outcome, since
-- what a call has written before it raises stays written.

-- The exceptions that the modelled code can raise by itself.
pub data Exception : Type 0 where
  key_error index_error attribute_error value_error : Exception
  zero_division_error assertion_error overflow_error invalid_tag : Exception

pub data Outcome {ℓ} (A : Type ℓ) : Type ℓ where
  returned : A → Outcome A
  raised : Exception → Outcome A

-- The outcome of a call that returns nothing.
abbrev pub Done : Type 0
Done = Outcome (Unit {0})
