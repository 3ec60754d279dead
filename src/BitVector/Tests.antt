-- ===== src/BitVector/Tests.antt =====
-- The bit vector at small inputs.
use artifice.Base.{◌*◌, ◌<◌, ◌≡◌, refl, true, false, some, ok, err, einval, List, [], ◌∷◌}
use artifice.Kernel.{bits_ops, Bits}
use artifice.BitVector.{BitVector, bits_to_bytes, create, set}
use artifice.BitVector.Laws.{set_in_bounds}
use artifice.BitVector.Refine.{Call, set_at, clear_at, get_at, replies, run, run_refines}

abbrev script : List Call
script = set_at 3 ∷ get_at 3 ∷ get_at 8 ∷ get_at 9 ∷ clear_at 3 ∷ get_at 3 ∷ []

script-replies : replies 8 (λ _. false) script ≡ ok 0 ∷ ok 1 ∷ ok 0 ∷ err einval ∷ ok 0 ∷ ok 0 ∷ []
unfolding replies
script-replies = refl

run_refines_example :
    run bits_ops (create bits_ops true true 8) script ≡ replies 8 (λ _. false) script
run_refines_example = run_refines bits_ops 8 script

abbrev two_bytes : BitVector Bits
two_bytes = record { array = record { count = 2; bit = λ _. false }; length = 8 }

set_in_bounds_example : 8 < 8 * 2
unfolding create set bits_to_bytes
set_in_bounds_example =
    set_in_bounds bits_ops 8 8 two_bytes (set bits_ops (some two_bytes) 8).1 refl refl
