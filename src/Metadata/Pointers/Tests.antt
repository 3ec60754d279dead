-- ===== src/Metadata/Pointers/Tests.antt =====
-- Two map blocks on a device with a free list of three blocks, one of them in use: one pointer in the
-- super block, and one pointer block of two.
use artifice.Base.{
  ℕ, zero, suc, ◌≡◌, ◌⊎◌, ◌<◌, ◌==◌, refl, arith, true, false, Bool, some, ok, pending, done,
  Outcome, fault, List, [], ◌∷◌, replicate, length-replicate, get_elem?, Result, err, enomem,
}
use artifice.Kernel.{bits_ops, Bits, pages_device}
use artifice.Allocation.{AllocationVector, PassiveFs, acquire_block}
use artifice.Io.{write_page}
use artifice.Allocation.Acquire.{IsUsable}
use artifice.Metadata.Pointers.{
  Progress, Arrays, write_map_blocks, fill_arrays, fill_pointers, behind, behind_array, choose,
  go_on, write_block,
}
use artifice.Metadata.Pointers.Stored.{IsDistinct, ArePages}
use artifice.Metadata.Pointers.Update.{IsSame, write_map_blocks-update}
use artifice.Metadata.Pointers.Chain.{write_ptr_blocks}
use artifice.Metadata.Pointers.Linked.{IsLong}
use artifice.Metadata.Pointers.Reachable.{Writes, write_ptr_blocks_lem}
use artifice.Metadata.Pointers.Complete.{Written, write_map_blocks_lem}

abbrev fs : PassiveFs
fs = record {
  block_list = 7 ∷ 2 ∷ 9 ∷ [];
  list_len = 3;
  sectors_per_block = 8;
  total_blocks = 16;
  data_start_off = 2048;
  blocks_in_tuple = 0;
}

fs-IsUsable : IsUsable 15 fs
fs-IsUsable = omega arith

places :
    (p b : ℕ)
    → get_elem? fs.block_list p ≡ some b
    → (p ≡ 0) × (b ≡ 7) ⊎ (p ≡ 1) × (b ≡ 2) ⊎ (p ≡ 2) × (b ≡ 9)
places zero b e = ground arith
places (suc zero) b e = ground arith
places (suc (suc zero)) b e = ground arith
places (suc (suc (suc p))) b e = ground arith

apart :
    (p q b : ℕ)
    → p < 3
    → q < 3
    → get_elem? fs.block_list p ≡ some b
    → get_elem? fs.block_list q ≡ some b
    → p ≡ q
apart p q b h k e f = ground (arith, places p b e, places q b f)

below : (p b : ℕ) → get_elem? fs.block_list p ≡ some b → b < 1048576
below p b e = ground (arith, places p b e)

fs-IsDistinct : IsDistinct fs
fs-IsDistinct = record { apart = apart; below = below; near = omega arith }

abbrev busy : AllocationVector Bits
busy = record {
  vector = some (record { array = record { count = 2; bit = λ j. 1 == j }; length = 15 });
}

abbrev start : Progress Bits (ℕ → List ℕ)
start = record { vector = busy; draws = 4 ∷ 5 ∷ 0 ∷ []; disk = λ s. []; blocks_written = 0 }

always : ℕ → Bool
always i = true

abbrev map_blocks : List (List ℕ)
map_blocks = replicate 4096 1 ∷ replicate 4096 2 ∷ []

map_blocks-ArePages : ArePages map_blocks
map_blocks-ArePages = (length-replicate 4096 1, (length-replicate 4096 2, tt))

write_map_blocks_lem_example :
    (write_map_blocks bits_ops pages_device fs always false
        (0 ∷ [])
        ((0 ∷ 0 ∷ []) ∷ [])
        map_blocks
        start
      ≡ pending)
    ⊎ (r : Arrays bits_ops pages_device fs always) × (write_map_blocks bits_ops pages_device fs
          always false
          (0 ∷ [])
          ((0 ∷ 0 ∷ []) ∷ [])
          map_blocks
          start
        ≡ done r)
      × Written bits_ops pages_device fs always fs-IsUsable fs-IsDistinct
          ((0 ∷ []) ∷ (0 ∷ 0 ∷ []) ∷ [])
          map_blocks
          start
          r
write_map_blocks_lem_example =
    write_map_blocks_lem bits_ops pages_device fs always fs-IsUsable fs-IsDistinct (0 ∷ [])
      ((0 ∷ 0 ∷ []) ∷ []) map_blocks start map_blocks-ArePages (refl, omega arith)

-- The status and the pointers.
abbrev pointers_of :
    Outcome (Arrays bits_ops pages_device fs always) → Outcome (Result (Unit {0}) × List (List ℕ))
pointers_of (done (ret, arrays, left, s)) = done (ret, arrays)
pointers_of fault = fault
pointers_of pending = pending

writes_nine_seven :
    pointers_of (
      write_map_blocks bits_ops pages_device fs always false
        (0 ∷ [])
        ((0 ∷ 0 ∷ []) ∷ [])
        map_blocks
        start)
    ≡ done (ok tt, (9 ∷ []) ∷ (7 ∷ 0 ∷ []) ∷ [])
unfolding write_map_blocks always fill_arrays fill_pointers behind behind_array choose go_on
    write_block acquire_block write_page
writes_nine_seven = refl

write_map_blocks-update_example :
    (r : Arrays bits_ops pages_device fs always) × (write_map_blocks bits_ops pages_device fs always
        true
        (9 ∷ [])
        ((7 ∷ 0 ∷ []) ∷ [])
        map_blocks
        start
      ≡ done r)
    × (r.1 ≡ (9 ∷ []) ∷ (7 ∷ 0 ∷ []) ∷ [])
    × IsSame bits_ops pages_device fs always start r.3
    × ((r.0 ≡ ok tt) ⊎ (r.0 ≡ err enomem))
write_map_blocks-update_example =
    write_map_blocks-update bits_ops pages_device fs always (9 ∷ []) ((7 ∷ 0 ∷ []) ∷ []) map_blocks
      start

-- A hash of twenty bytes.
hash : List ℕ → List ℕ
hash xs = replicate 20 7

hash-IsLong : IsLong hash
unfolding hash
hash-IsLong xs = let q = length-replicate {A = ℕ} 20 7 in omega (arith, q)

abbrev one_ptr_block : List (List ℕ)
one_ptr_block = replicate 1019 0 ∷ []

write_ptr_blocks_lem_example :
    Writes bits_ops pages_device fs always fs-IsUsable fs-IsDistinct hash hash-IsLong
      (0 ∷ [])
      one_ptr_block
      map_blocks
      (write_ptr_blocks bits_ops pages_device fs always hash
        (0 ∷ [])
        one_ptr_block
        map_blocks
        start)
write_ptr_blocks_lem_example =
    write_ptr_blocks_lem bits_ops pages_device fs always fs-IsUsable fs-IsDistinct hash hash-IsLong
      (0 ∷ []) one_ptr_block map_blocks start (length-replicate 1019 0, tt) map_blocks-ArePages
      (refl, omega arith)
