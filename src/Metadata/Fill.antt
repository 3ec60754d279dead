-- ===== src/Metadata/Fill.antt =====
-- `afs_fill_map` of src/dm_afs_metadata.c, its loop over the pointers of the super block: the map blocks
-- are read from the device into the map. An error ends it.
pub mod Reload
mod Tests
use artifice.Base.{
  ℕ, zero, suc, ◌+◌, ◌*◌, le32_at, ◌^◌, ◌%◌, ◌≡◌, refl, ◌∙◌, ap, inl, inr, Bool, true, false,
  Bool-cases, leb, if◌then◌else◌, Result, ok, err, List, [], ◌∷◌, map,
}
use artifice.Kernel.{BitOps, Device}
use artifice.Allocation.{AllocationVector, PassiveFs, allocation_set}
use artifice.Format.{Config, map_tuple_size}
use artifice.Io.{read_page, afs_blkdev_io, transfer}
use artifice.Metadata.Blocks.{entries_left, entries_next, fill_entries, fill_from}

-- `rebuild_allocation_vector`: the pointer of every tuple of every entry goes to `allocation_set`, whose
-- status is not looked at. The inner loop has `j` more tuples from byte `offset` on, the outer one `k` more
-- entries from number `i` on.
module _ (ops : BitOps) (config : Config) (afs_map : List ℕ) where
  unfoldable pub set_tuples : ℕ → ℕ → AllocationVector (ops.Memory) → AllocationVector (ops.Memory)
  set_tuples zero offset vector = vector
  set_tuples (suc j) offset vector =
      set_tuples j (offset + map_tuple_size) (allocation_set ops vector (le32_at afs_map offset)).1

  unfoldable pub set_entries : ℕ → ℕ → AllocationVector (ops.Memory) → AllocationVector (ops.Memory)
  unfolding set_tuples
  set_entries zero i vector = vector
  set_entries (suc k) i vector =
      set_entries k (suc i)
        (set_tuples config.num_carrier_blocks (i * config.map_entry_sz % 2 ^ 32) vector)

  unfoldable pub rebuild_allocation_vector :
      AllocationVector (ops.Memory) → AllocationVector (ops.Memory)
  unfolding set_entries
  rebuild_allocation_vector vector = set_entries config.num_blocks 0 vector

-- What the loop changes: the vector, the map, the page for a map block, and `entries_read`.
pub record Reading (Memory : Type 0) : Type 0 where
  pub vector : AllocationVector Memory
  pub afs_map : List ℕ
  pub page : List ℕ
  pub entries_read : ℕ

module _ (config : Config) (ops : BitOps) (device : Device) (fs : PassiveFs) where
  open config use {num_map_entries_per_block}
  open ops use {Memory}
  open device use {Disk}

  -- The copy into the map after a page is read.
  unfoldable pub copy_entries : ℕ → List ℕ → Reading Memory → Reading Memory
  copy_entries pointer page r = record {
    vector = (allocation_set ops r.vector pointer).1;
    afs_map = fill_entries config r.afs_map r.entries_read page;
    page = page;
    entries_read = (r.entries_read + entries_next config r.entries_read) % 2 ^ 32;
  }

  -- How a round goes on after the read, with what `rest` makes of the state.
  unfoldable pub read_on :
      ℕ
      → (Reading Memory → Result (Unit {0}) × Reading Memory)
      → Reading Memory
      → Result (Unit {0}) × List ℕ
      → Result (Unit {0}) × Reading Memory
  read_on pointer rest r (err e, page) = (err e, record r { page = page })
  read_on pointer rest r (ok _, page) =
      let next = copy_entries pointer page r in
      if leb (entries_left config r.entries_read) num_map_entries_per_block
      then (ok tt, next)
      else rest next

  -- The loop over the pointers of the super block; `has_bio` says of each read whether it gets memory.
  unfoldable pub fill_from_sb :
      (ℕ → Bool) → Disk → List ℕ → Reading Memory → Result (Unit {0}) × Reading Memory
  fill_from_sb has_bio disk [] r = (ok tt, r)
  fill_from_sb has_bio disk (pointer ∷ pointers) r =
      read_on pointer (fill_from_sb has_bio disk pointers) r
        (read_page device (has_bio r.entries_read) r.page pointer (fs.data_start_off % 2 ^ 32) disk)

  -- What is read at a pointer.
  abbrev pub page_at : Disk → ℕ → List ℕ
  page_at disk pointer = (read_page device true [] pointer (fs.data_start_off % 2 ^ 32) disk).1

  -- With memory the loop over the pointers of the super block succeeds, and leaves in the map and in
  -- `entries_read` what the copies of the entries of the pages make, read one after the other.
  pub fill_from_sb-fill_from :
      (disk : Disk) (pointers : List ℕ) (r : Reading Memory)
      → ((fill_from_sb (λ _. true) disk pointers r).0 ≡ ok tt)
        × ((
          (fill_from_sb (λ _. true) disk pointers r).1.afs_map,
          (fill_from_sb (λ _. true) disk pointers r).1.entries_read,
        )
            ≡ fill_from config (map (page_at disk) pointers) r.afs_map r.entries_read)
  unfolding fill_from_sb read_on copy_entries fill_from read_page afs_blkdev_io transfer
  fill_from_sb-fill_from disk [] r = (refl, refl)
  fill_from_sb-fill_from disk (pointer ∷ pointers) r =
      elim (Bool-cases (leb (entries_left config r.entries_read) num_map_entries_per_block)) [
        | inl last ↦ rw last (refl, refl)
        | inr more ↦
            rw more
              (fill_from_sb-fill_from disk pointers (copy_entries pointer (page_at disk pointer) r))
      ]
