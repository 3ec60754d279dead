-- ===== src/Allocation/Release.antt =====
-- Giving a block back in src/dm_afs_allocation.c. The callers of `allocation_free` (`reset_entry` in
-- src/dm_afs_engine.c) hand it the block's number, while `acquire_block` marks a position of the free list.
use artifice.Base.{ℕ, ◌≤◌, ◌≡◌, ◌≢◌, ◌↔◌, true, arith}
use artifice.Kernel.{BitOps}
use artifice.Allocation.{AllocationVector, PassiveFs, allocation_free}
use artifice.Allocation.Laws.{in_use, allocation_free_lem}
use artifice.Allocation.Acquire.{IsUsable, Took}

module _ (ops : BitOps) where
  open ops use {Memory}

  -- Freeing the block that was just acquired, by its number, gives the earlier state back exactly
  -- when the block's number is its position in the free list. Else the position stays in use.
  pub release_restores :
      {n : ℕ} {fs : PassiveFs} (u : IsUsable n fs) (a a' : AllocationVector Memory) (b : ℕ)
      → b ≤ n
      → (t : Took ops n fs a b a')
      → (((j : ℕ) → in_use ops (allocation_free ops a' b) j ≡ in_use ops a j) ↔ (b ≡ t.position))
        × (b ≢ t.position → in_use ops (allocation_free ops a' b) t.position ≡ true)
  release_restores {n} u a a' b h t =
      let (k, f) = allocation_free_lem ops n b h a' t.ready in
      (
        (
          λ same. ground (arith, same t.position, f t.position, t.now t.position, t.was_free),
          λ e j. ground (arith, f j, t.now j, t.was_free),
        ),
        λ ne. ground (arith, f t.position, t.now t.position),
      )
