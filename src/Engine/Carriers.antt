-- ===== src/Engine/Carriers.antt =====
-- The carrier blocks of a request in src/dm_afs_engine.c: the loop of `afs_write_request` and of
-- `rebuild_blocks` that finds a block for each and enters it into the map, and the part `reset_entry` of
-- both. Block numbers have 32 bits. The map is its bytes, and the entry an offset into them.
pub mod Laws
pub mod Ending
use artifice.Base.{
  ℕ, zero, suc, ◌+◌, ◌*◌, ◌^◌, ◌%◌, Bool, true, false, if◌then◌else◌, ◌==◌, List, [], ◌∷◌, Result,
  ok, err, enospc, Outcome, fault, pending, done,
}
use artifice.Kernel.{BitOps}
use artifice.Allocation.{AllocationVector, PassiveFs, invalid_block, acquire_block, allocation_free}
use artifice.Engine.Entry.{carrier_block_ptr, set_carrier_block_ptr}

-- What the loops change: the map, the allocation vector, and the random numbers to come.
pub record Store (Memory : Type 0) : Type 0 where
  pub afs_map : List ℕ
  pub vector : AllocationVector Memory
  pub draws : List ℕ

module _ (ops : BitOps) (fs : PassiveFs) (map_entry : ℕ) where
  open ops use {Memory}

  -- The status, `req->block_nums`, and the state.
  abbrev pub Assigned : Type 0
  Assigned = Result (Unit {0}) × List ℕ × Store Memory

  -- The block for carrier `i`: the one in the map when the write is a modification, else a new one.
  unfoldable pub block_for :
      Bool → ℕ → Store Memory → Outcome (ℕ × AllocationVector Memory × List ℕ)
  block_for modification i s =
      if modification
      then done (carrier_block_ptr s.afs_map map_entry i, s.vector, s.draws)
      else acquire_block ops fs s.vector s.draws

  -- The block numbers behind one that was found.
  unfoldable pub with_block : ℕ → Outcome Assigned → Outcome Assigned
  with_block block_num fault = fault
  with_block block_num pending = pending
  with_block block_num (done (ret, block_nums, s)) = done (ret, block_num ∷ block_nums, s)

  -- How a round of the loop goes on with the block that was found.
  unfoldable pub enter :
      (Store Memory → Outcome Assigned)
      → ℕ
      → Store Memory
      → Outcome (ℕ × AllocationVector Memory × List ℕ)
      → Outcome Assigned
  unfolding with_block
  enter rest i s fault = fault
  enter rest i s pending = pending
  enter rest i s (done (found, vector, draws)) =
      let block_num = found % 2 ^ 32 in
      if block_num == invalid_block
      then done (err enospc, [], record { afs_map = s.afs_map; vector = vector; draws = draws })
      else with_block block_num (
          rest (record {
            afs_map = set_carrier_block_ptr s.afs_map map_entry i block_num;
            vector = vector;
            draws = draws;
          }))

  -- The loop over the carriers from `i` on, `k` of them.
  unfoldable pub assign_blocks : Bool → ℕ → ℕ → Store Memory → Outcome Assigned
  unfolding block_for enter
  assign_blocks modification zero i s = done (ok tt, [], s)
  assign_blocks modification (suc k) i s =
      enter (assign_blocks modification k (suc i)) i s (block_for modification i s)

  -- One round of the loop at `reset_entry`.
  unfoldable pub reset_carrier : ℕ → Store Memory → Store Memory
  reset_carrier i s =
      let block_num = carrier_block_ptr s.afs_map map_entry i in
      record {
        afs_map = set_carrier_block_ptr s.afs_map map_entry i invalid_block;
        vector =
            if block_num == invalid_block then s.vector else allocation_free ops s.vector block_num;
        draws = s.draws;
      }

  -- The loop at `reset_entry` from carrier `i` on, `k` of them.
  unfoldable pub reset_entry : ℕ → ℕ → Store Memory → Store Memory
  unfolding reset_carrier
  reset_entry zero i s = s
  reset_entry (suc k) i s = reset_entry k (suc i) (reset_carrier i s)
