-- ===== src/Base/Check.antt =====
-- A table of small cases, decided by evaluation.
use Prim.Native.Nat.{ℕ, zero, suc, ◌<◌}
use mathlib.Core.Path.{◌≡◌}
use mathlib.Core.Bool.{Bool, true, ◌&&◌}
use native.Mathlib.Omega.{arith}

-- The test holds of the numbers that are smaller than the bound.
unfoldable pub holds_up_to : (ℕ → Bool) → ℕ → Bool
holds_up_to test zero = true
holds_up_to test (suc bound) = holds_up_to test bound && test bound

pub holds_up_to_lem :
    (test : ℕ → Bool) (bound : ℕ)
    → (i : ℕ) → holds_up_to test bound ≡ true
    → i < bound
    → test i ≡ true
unfolding holds_up_to
holds_up_to_lem test zero i table small = absurd (omega arith)
holds_up_to_lem test (suc bound) i table small = ground (arith, holds_up_to_lem test bound i)
