-- ===== src/Allocation/Tests.antt =====
-- The allocation vector at small inputs: a free list of three blocks, the second position in use.
use artifice.Base.{
  ℕ, ◌≡◌, ◌≢◌, ◌↔◌, ◌⊎◌, refl, true, some, arith, ◌==◌, if◌then◌else◌, done, pending, List, [], ◌∷◌,
}
use artifice.Kernel.{bits_ops, Bits}
use artifice.Allocation.{AllocationVector, PassiveFs, acquire_block, allocation_free}
use artifice.Allocation.Laws.{in_use}
use artifice.Allocation.Acquire.{IsUsable, Took, Acquired, Suffice, acquire_block_lem}
use artifice.Allocation.Release.{release_restores}

abbrev fs : PassiveFs
fs = record {
  block_list = 7 ∷ 2 ∷ 9 ∷ [];
  list_len = 3;
  sectors_per_block = 8;
  total_blocks = 16;
  data_start_off = 0;
  blocks_in_tuple = 0;
}

fs-IsUsable : IsUsable 15 fs
fs-IsUsable = omega arith

abbrev busy : AllocationVector Bits
busy = record {
  vector = some (record { array = record { count = 2; bit = λ j. 1 == j }; length = 15 });
}

abbrev busier : AllocationVector Bits
busier = record {
  vector = some (record {
    array = record { count = 2; bit = λ j. if 2 == j then true else 1 == j };
    length = 15;
  });
}

acquire_block_example :
    (acquire_block bits_ops fs busy (4 ∷ 5 ∷ []) ≡ pending)
      × (¬ (Suffice bits_ops fs-IsUsable busy (refl, omega arith) (4 ∷ 5 ∷ [])))
    ⊎ (r : ℕ × AllocationVector Bits × List ℕ) × (acquire_block bits_ops fs busy (4 ∷ 5 ∷ [])
        ≡ done r)
      × Acquired bits_ops fs-IsUsable busy (refl, omega arith) r
acquire_block_example = acquire_block_lem bits_ops fs-IsUsable busy (refl, omega arith) (4 ∷ 5 ∷ [])

acquires_nine : acquire_block bits_ops fs busy (4 ∷ 5 ∷ []) ≡ done (9, busier, [])
unfolding acquire_block
acquires_nine = refl

abbrev took_nine : Took bits_ops 15 fs busy 9 busier
took_nine = record {
  position = 2;
  inside = omega arith;
  names = refl;
  was_free = refl;
  now = λ j. refl;
  ready = (refl, omega arith);
}

release_restores_example :
    (((j : ℕ) → in_use bits_ops (allocation_free bits_ops busier 9) j ≡ in_use bits_ops busy j)
      ↔ (◌≡◌ {A = ℕ} 9 2))
    × (◌≢◌ {A = ℕ} 9 2 → in_use bits_ops (allocation_free bits_ops busier 9) 2 ≡ true)
release_restores_example =
    release_restores bits_ops fs-IsUsable busy busier 9 (omega arith) took_nine
