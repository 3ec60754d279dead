-- ===== src/Base/Status.antt =====
-- What C functions return: a value or a negative error number; and the outcome of a run that may
-- fault or not yet have ended.

-- The errors that the code returns, each as `-E...`.
pub data Errno : Type 0 where
  einval enomem eio enospc enoent enxio : Errno

pub data Result {ℓ} (A : Type ℓ) : Type ℓ where
  ok : A → Result A
  err : Errno → Result A

-- `fault`: undefined behaviour in C. `pending`: the loop has not ended on the input given so far.
pub data Outcome {ℓ} (A : Type ℓ) : Type ℓ where
  fault : Outcome A
  pending : Outcome A
  done : A → Outcome A
