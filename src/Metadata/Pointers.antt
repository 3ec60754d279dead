-- ===== src/Metadata/Pointers.antt =====
-- `write_map_blocks` of src/dm_afs_metadata.c: the map blocks go to blocks of the free list, and the
-- pointers to them into the super block and then into the pointer blocks. Map blocks are a list of pages;
-- an array of pointers is a list of its length.
pub mod Stored
pub mod Filling
pub mod Complete
pub mod Update
pub mod Chain
pub mod Linked
pub mod Reachable
mod Tests
use artifice.Base.{
  ℕ, ◌+◌, ◌^◌, ◌%◌, Bool, true, false, ◌&&◌, not, ◌==◌, if◌then◌else◌, Result, ok, err, enospc,
  Outcome, fault, pending, done, List, [], ◌∷◌,
}
use artifice.Kernel.{BitOps, Device}
use artifice.Allocation.{AllocationVector, PassiveFs, invalid_block, acquire_block}
use artifice.Io.{write_page}

-- What the loops change: the vector, the random numbers to come, the disk, and `blocks_written`.
pub record Progress (Memory Disk : Type 0) : Type 0 where
  pub vector : AllocationVector Memory
  pub draws : List ℕ
  pub disk : Disk
  pub blocks_written : ℕ

module _ (ops : BitOps) (device : Device) (fs : PassiveFs) (has_bio : ℕ → Bool) where
  open ops use {Memory}
  open device use {Disk}

  -- The status, the pointers, the map blocks that are left, and the state.
  abbrev pub Filled : Type 0
  Filled = Result (Unit {0}) × List ℕ × List (List ℕ) × Progress Memory Disk

  -- The block for the next map block: the one that the pointer names on an update, else an acquired one.
  unfoldable pub choose :
      Bool → ℕ → Progress Memory Disk → Outcome (ℕ × AllocationVector Memory × List ℕ)
  choose update pointer s =
      if update then done (pointer, s.vector, s.draws) else acquire_block ops fs s.vector s.draws

  -- The pointers behind one that is set.
  unfoldable pub behind : ℕ → Outcome Filled → Outcome Filled
  behind block_num fault = fault
  behind block_num pending = pending
  behind block_num (done (ret, pointers, left, s)) = done (ret, block_num ∷ pointers, left, s)

  -- The body of the loops once the block is chosen: the status of the write, and the state after it.
  unfoldable pub write_block :
      List ℕ
      → ℕ
      → AllocationVector Memory
      → List ℕ
      → Progress Memory Disk
      → Result (Unit {0}) × Progress Memory Disk
  write_block page block_num vector draws s =
      let (ret, disk) =
        write_page device (has_bio s.blocks_written) page block_num (fs.data_start_off % 2 ^ 32)
          s.disk in
      (
        ret,
        record { vector = vector; draws = draws; disk = disk; blocks_written = s.blocks_written },
      )

  -- How a round goes on after the write, with what `rest` makes of the state.
  unfoldable pub go_on :
      ℕ
      → List ℕ
      → List (List ℕ)
      → (Progress Memory Disk → Outcome Filled)
      → Result (Unit {0}) × Progress Memory Disk
      → Outcome Filled
  go_on block_num pointers left rest (err e, s) = done (err e, block_num ∷ pointers, left, s)
  go_on block_num pointers left rest (ok _, s) =
      behind block_num (rest (record s { blocks_written = s.blocks_written + 1 }))

  -- The loop over the pointers of the super block, and over those of one pointer block, from a pointer on.
  unfoldable pub fill_pointers :
      Bool → List ℕ → List (List ℕ) → Progress Memory Disk → Outcome Filled
  fill_pointers update [] left s = done (ok tt, [], left, s)
  fill_pointers update (pointer ∷ pointers) [] s = done (ok tt, pointer ∷ pointers, [], s)
  fill_pointers update (pointer ∷ pointers) (page ∷ left) s = elim (choose update pointer s) [
    | fault ↦ fault
    | pending ↦ pending
    | done chosen ↦
        let (block_num, vector, draws) = chosen in
        if not update && block_num == invalid_block
        then done (
          err enospc,
          pointer ∷ pointers,
          page ∷ left,
          record s { vector = vector; draws = draws },
        )
        else go_on block_num pointers (page ∷ left) (fill_pointers update pointers left)
            (write_block page block_num vector draws s)
  ]

  -- What both kinds of pointers make together.
  abbrev pub Arrays : Type 0
  Arrays = Result (Unit {0}) × List (List ℕ) × List (List ℕ) × Progress Memory Disk

  unfoldable pub behind_array : List ℕ → Outcome Arrays → Outcome Arrays
  behind_array pointers fault = fault
  behind_array pointers pending = pending
  behind_array pointers (done (ret, arrays, left, s)) = done (ret, pointers ∷ arrays, left, s)

  -- The loop over the pointer blocks; an error ends it.
  unfoldable pub fill_arrays :
      Bool → List (List ℕ) → List (List ℕ) → Progress Memory Disk → Outcome Arrays
  fill_arrays update [] left s = done (ok tt, [], left, s)
  fill_arrays update (pointers ∷ arrays) left s = elim (fill_pointers update pointers left s) [
    | fault ↦ fault
    | pending ↦ pending
    | done filled ↦
        let (ret, pointers', left', s') = filled in
        elim ret [
          | err e ↦ done (err e, pointers' ∷ arrays, left', s')
          | ok _ ↦ behind_array pointers' (fill_arrays update arrays left' s')
        ]
  ]

  -- `write_map_blocks`: the pointers of the super block stand before those of the pointer blocks. Where
  -- the super block has room for all map blocks, the pointer blocks are not looked at.
  unfoldable pub write_map_blocks :
      Bool → List ℕ → List (List ℕ) → List (List ℕ) → Progress Memory Disk → Outcome Arrays
  write_map_blocks update map_block_ptrs ptr_blocks map_blocks s =
      fill_arrays update (map_block_ptrs ∷ ptr_blocks) map_blocks s
