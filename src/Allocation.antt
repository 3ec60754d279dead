-- ===== src/Allocation.antt =====
-- src/dm_afs_allocation.c, with `struct afs_allocation_vector` and `struct afs_passive_fs` of
-- include/dm_afs_modules.h: which positions of the free list are in use, and the random choice of one
-- that is not. `get_random_bytes` is the kernel's: its results come as a list of draws, each below
-- 2 ^ 32. The spin lock makes a call of `acquire_block` one step.
pub mod Laws
pub mod Acquire
pub mod Release
mod Tests
use artifice.Base.{
  ℕ, ◌-◌, ◌%◌, ◌^◌, Bool, true, false, Option, none, some, ◌==◌, if◌then◌else◌, Result, ok, err,
  Outcome, fault, pending, done, List, [], ◌∷◌, get_elem?,
}
use artifice.Kernel.{BitOps}
use artifice.BitVector
use artifice.BitVector.{BitVector}

-- `struct afs_allocation_vector`; the lock is taken and released inside `acquire_block`.
pub record AllocationVector (Memory : Type 0) : Type 0 where
  pub vector : Option (BitVector Memory)

-- `struct afs_passive_fs`
pub record PassiveFs : Type 0 where
  pub block_list : List ℕ
  pub list_len : ℕ
  pub sectors_per_block : ℕ
  pub total_blocks : ℕ
  pub data_start_off : ℕ
  pub blocks_in_tuple : ℕ

-- `AFS_INVALID_BLOCK`, which is `U32_MAX`
abbrev pub invalid_block : ℕ
invalid_block = 2 ^ 32 - 1

-- `random_block_index` at a random number; its caller rules out the empty list, by which `%` faults.
unfoldable pub random_block_index : PassiveFs → ℕ → ℕ
random_block_index fs block_num = block_num % fs.list_len

-- The end of `allocation_get`: an error of `bit_vector_get` counts as 0.
valid_state : Result ℕ → ℕ
valid_state (ok ret) = if ret == 0 then 0 else 1
valid_state (err _) = 0

-- The `afs_assert(!ret, …)` of `allocation_set`.
succeeded : Result (Unit {0}) → Bool
succeeded (ok _) = true
succeeded (err _) = false

module _ (ops : BitOps) where
  open ops use {Memory}

  -- `allocation_get`
  unfoldable pub allocation_get : AllocationVector Memory → ℕ → ℕ
  unfolding valid_state BitVector.get
  allocation_get vector index = valid_state (BitVector.get ops vector.vector index)

  -- `allocation_set`: whether the position was free and is taken now.
  unfoldable pub allocation_set : AllocationVector Memory → ℕ → Bool × AllocationVector Memory
  unfolding succeeded allocation_get BitVector.set
  allocation_set vector index =
      if allocation_get vector index == 0
      then (let (ret, v) = BitVector.set ops vector.vector index in
          (succeeded ret, record { vector = v }))
      else (false, vector)

  -- `allocation_free`: an error is only reported.
  unfoldable pub allocation_free : AllocationVector Memory → ℕ → AllocationVector Memory
  unfolding BitVector.clear
  allocation_free vector index = record { vector = (BitVector.clear ops vector.vector index).1 }

  -- The block that a position of the free list names, for a position just taken. A read out of range
  -- is a fault.
  unfoldable pub picked :
      PassiveFs
      → ℕ
      → AllocationVector Memory
      → List ℕ
      → Outcome (ℕ × AllocationVector Memory × List ℕ)
  picked fs block_num vector draws = elim (get_elem? fs.block_list block_num) [
    | none ↦ fault
    | some ret ↦ done (ret, vector, draws)
  ]

  -- The `do … while` of `acquire_block` from the choice `block_num` on; `current_num` is the first
  -- choice. It ends with a position that was free, or when the first choice is drawn again.
  unfoldable pub acquire_from :
      PassiveFs
      → ℕ
      → AllocationVector Memory
      → ℕ
      → List ℕ
      → Outcome (ℕ × AllocationVector Memory × List ℕ)
  unfolding allocation_set picked random_block_index
  acquire_from fs current_num vector block_num [] =
      let (taken, vector') = allocation_set vector block_num in
      if taken then picked fs block_num vector' [] else pending
  acquire_from fs current_num vector block_num (r ∷ draws) =
      let (taken, vector') = allocation_set vector block_num in
      let next = random_block_index fs r in
      let rest = acquire_from fs current_num vector' next draws in
      if taken
      then picked fs block_num vector' (r ∷ draws)
      else if next == current_num
      then done (invalid_block, vector', draws)
      else rest

  -- `acquire_block`: the block, the vector afterwards and the draws that are left. The static
  -- `block_num` is overwritten at once, so no call sees the one before it.
  unfoldable pub acquire_block :
      PassiveFs → AllocationVector Memory → List ℕ → Outcome (ℕ × AllocationVector Memory × List ℕ)
  unfolding acquire_from
  acquire_block fs vector [] = pending
  acquire_block fs vector (r ∷ draws) =
      if fs.list_len == 0
      then fault
      else acquire_from fs (random_block_index fs r) vector (random_block_index fs r) draws
