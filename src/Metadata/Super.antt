-- ===== src/Metadata/Super.antt =====
-- Where `write_super_block` and `find_super_block` of src/dm_afs_metadata.c put and look for the super
-- block: at blocks that follow from hashes of the passphrase. `hash_sha1` and `hash_sha256` call the kernel
-- and are arguments. A super block is its page; its first `SHA256_SZ` bytes are the hash of the rest.
pub mod Laws
mod Tests
use artifice.Base.{
  ℕ, zero, suc, ◌+◌, ◌/◌, ◌%◌, ◌^◌, Bool, true, if◌then◌else◌, ltb, ◌==◌, List, [], ◌∷◌, take, drop,
  get_elem?, le32_at, Option, none, some, Result, ok, err, enoent, Outcome, fault, pending, done,
}
use artifice.Format.{sectors_per_block}
use artifice.Kernel.{BitOps, Device}
use artifice.Allocation.{AllocationVector, PassiveFs, allocation_set}
use artifice.Io.{read_page, write_page}
use artifice.Metadata.Search.{binary_search}

-- `NUM_SUPERBLOCK_REPLICAS`
abbrev num_superblock_replicas : ℕ
num_superblock_replicas = 8

-- `SHA256_SZ`
abbrev pub sha256_size : ℕ
sha256_size = 32

-- `config->bdev_size / AFS_SECTORS_PER_BLOCK`, in 32 bits
unfoldable block_device_size : ℕ → ℕ
block_device_size bdev_size = bdev_size / sectors_per_block % 2 ^ 32

-- The lists of bytes are the same, as `memcmp` finds.
unfoldable pub same_bytes : List ℕ → List ℕ → Bool
same_bytes [] [] = true
same_bytes (x ∷ xs) (y ∷ ys) = if x == y then same_bytes xs ys else x == y
same_bytes xs ys = 0 == 1

-- Where the loops that hash again end: the hash, the block, and the count of `sb_tries`.
pub record Probe : Type 0 where
  pub pass_hash : List ℕ
  pub block : ℕ
  pub sb_tries : ℕ

module _ (hash_sha1 : List ℕ → List ℕ) (fs : PassiveFs) (size : ℕ) where
  -- How the loop goes on after the search for the block.
  unfoldable pub probed : Outcome (Option ℕ) → Probe → Outcome Probe → Outcome Probe
  probed fault here next = fault
  probed pending here next = pending
  probed (done none) here next = next
  probed (done (some _)) here next = done here

  -- The `while` loops that hash again until the block is in the free list. The remainder by a size of 0
  -- is a fault. The loops of `write_super_block` count nothing.
  unfoldable pub probe : ℕ → ℕ → List ℕ → Outcome Probe
  unfolding probed
  probe zero sb_tries pass_hash = pending
  probe (suc fuel) sb_tries pass_hash =
      let block = le32_at pass_hash 0 % size in
      let next = probe fuel (suc sb_tries) (hash_sha1 pass_hash) in
      if size == 0
      then fault
      else probed (binary_search fs.block_list block fs.list_len)
          (record { pass_hash = pass_hash; block = block; sb_tries = sb_tries }) next

  -- A location in front of those behind it.
  unfoldable pub before_locations : ℕ → Outcome (List ℕ) → Outcome (List ℕ)
  before_locations block (done blocks) = done (block ∷ blocks)
  before_locations block other = other

  unfoldable pub located : Outcome Probe → (List ℕ → Outcome (List ℕ)) → Outcome (List ℕ)
  unfolding before_locations
  located fault rest = fault
  located pending rest = pending
  located (done p) rest = before_locations p.block (rest p.pass_hash)

  -- The array `sb_block` of `write_super_block`, from a hash on, for `k` replicas.
  unfoldable pub locations : ℕ → ℕ → List ℕ → Outcome (List ℕ)
  unfolding located probe
  locations fuel zero pass_hash = done []
  locations fuel (suc k) pass_hash =
      located (probe fuel 0 pass_hash) (λ h. locations fuel k (hash_sha1 h))

-- The calls of `allocation_set` for the locations; what they return is not looked at.
unfoldable reserve :
    (ops : BitOps) → AllocationVector (ops.Memory) → List ℕ → AllocationVector (ops.Memory)
reserve ops vector [] = vector
reserve ops vector (block ∷ blocks) = reserve ops (allocation_set ops vector block).1 blocks

module _ (device : Device) (fs : PassiveFs) (has_bio : ℕ → Bool) where
  open device use {Disk}

  -- An error of a write ends the loop.
  unfoldable pub next_replica :
      (Disk → Outcome (Result (Unit {0}) × Disk))
      → Result (Unit {0}) × Disk
      → Outcome (Result (Unit {0}) × Disk)
  next_replica rest (ok _, disk) = rest disk
  next_replica rest (err e, disk) = done (err e, disk)

  -- The loop of `write_super_block` over the replicas from number `i` on. A location is taken as an index
  -- of the free list; a read behind the list is a fault.
  unfoldable pub write_replicas : ℕ → List ℕ → List ℕ → Disk → Outcome (Result (Unit {0}) × Disk)
  unfolding next_replica
  write_replicas i [] sb disk = done (ok tt, disk)
  write_replicas i (block ∷ blocks) sb disk =
      elim (get_elem? fs.block_list block) as (λ _. Outcome (Result (Unit {0}) × Disk)) [
        | none ↦ fault
        | some b ↦
            next_replica (write_replicas (suc i) blocks sb)
              (write_page device (has_bio i) sb b (fs.data_start_off % 2 ^ 32) disk)
      ]

  module _ (hash_sha1 hash_sha256 : List ℕ → List ℕ) (size : ℕ) where
    -- The hash in the super block is that of the rest.
    unfoldable pub is_sealed : List ℕ → Bool
    unfolding same_bytes
    is_sealed sb = same_bytes (take sha256_size sb) (hash_sha256 (drop sha256_size sb))

    -- What a round of the loop of `find_super_block` does with the status of the read and the page:
    -- `again` is the next round.
    unfoldable pub checked :
        ℕ
        → Result (Unit {0}) × List ℕ
        → Outcome (Result (List ℕ × ℕ))
        → Outcome (Result (List ℕ × ℕ))
    unfolding is_sealed
    checked block (err e, sb) again = done (err e)
    checked block (ok _, sb) again = if is_sealed sb then done (ok (sb, block)) else again

    unfoldable pub attempt :
        ℕ
        → Disk
        → Outcome Probe
        → (Probe → Outcome (Result (List ℕ × ℕ)))
        → Outcome (Result (List ℕ × ℕ))
    unfolding checked
    attempt sb_tries disk fault again = fault
    attempt sb_tries disk pending again = pending
    attempt sb_tries disk (done p) again =
        elim (get_elem? fs.block_list p.block) as (λ _. Outcome (Result (List ℕ × ℕ))) [
          | none ↦ fault
          | some b ↦
              checked p.block
                (read_page device (has_bio sb_tries) [] b (fs.data_start_off % 2 ^ 32) disk)
                (again p)
        ]

    -- The loop of `find_super_block` on fuel, and the check behind it: the super block and its location.
    -- A block that was read and is not sealed is read again, since the hash stays the same.
    unfoldable pub find_from : ℕ → ℕ → ℕ → List ℕ → Disk → Outcome (Result (List ℕ × ℕ))
    unfolding attempt probe
    find_from fuel zero sb_tries pass_hash disk = pending
    find_from fuel (suc rounds) sb_tries pass_hash disk =
        let go =
          attempt sb_tries disk (probe hash_sha1 fs size fuel sb_tries pass_hash)
            (λ p. find_from fuel rounds (suc p.sb_tries) p.pass_hash disk) in
        if ltb sb_tries 32 then go else done (err enoent)
