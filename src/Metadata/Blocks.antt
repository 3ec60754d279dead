-- ===== src/Metadata/Blocks.antt =====
-- The Artifice map and its map blocks, in src/dm_afs_metadata.c: `afs_create_map`,
-- `afs_create_map_blocks`, and the part of `afs_fill_map` that copies the entries of one map block
-- back. Memory is a list of bytes; the counts of entries and the byte offsets have 32 bits.
pub mod Fits
pub mod Restore
pub mod Fresh
use artifice.Base.{
  ℕ, zero, suc, ◌+◌, ◌-◌, ◌*◌, ◌^◌, ◌%◌, Bool, Option, none, some, leb, ltb, Outcome, fault, done,
  ◌==◌, if◌then◌else◌, Result, ok, err, enomem, eio, List, [], ◌∷◌, ◌++◌, replicate, slice, memcpy,
}
use artifice.Format.{Config, block_size, sha512_size, carrier_hash_size, entropy_hash_size}

-- An unused tuple: `AFS_INVALID_BLOCK` and the checksum 0.
abbrev pub invalid_tuple : List ℕ
invalid_tuple = 255 ∷ 255 ∷ 255 ∷ 255 ∷ 0 ∷ 0 ∷ []

-- The inner loop of `afs_create_map`: the tuples of one entry.
unfoldable pub invalid_tuples : ℕ → List ℕ
invalid_tuples zero = []
invalid_tuples (suc j) = invalid_tuple ++ invalid_tuples j

-- What one round of the outer loop writes: the tuples, and zeros for the hash and the entropy.
unfoldable pub invalid_entry : ℕ → List ℕ
invalid_entry carriers =
    invalid_tuples carriers ++ replicate (carrier_hash_size + entropy_hash_size) 0

module _ (config : Config) where
  open config use {
    num_carrier_blocks, map_entry_sz, unused_space_per_block, num_map_entries_per_block, num_blocks,
    num_map_blocks,
  }

  -- The outer loop of `afs_create_map` for `rounds` more entries from entry `i` on.
  unfoldable pub create_entries : ℕ → ℕ → List ℕ → List ℕ
  create_entries zero i map_entries = map_entries
  create_entries (suc rounds) i map_entries =
      create_entries rounds (i + 1)
        (memcpy map_entries (i * map_entry_sz % 2 ^ 32) (invalid_entry num_carrier_blocks))

  -- `afs_create_map`; the argument is what `vmalloc` gives: nothing, or memory with any contents.
  unfoldable pub afs_create_map : Option (List ℕ) → Result (List ℕ)
  afs_create_map none = err enomem
  afs_create_map (some map_entries) = ok (create_entries num_blocks 0 map_entries)

  -- `entries_left`, and how many of them go into the next block.
  unfoldable pub entries_left : ℕ → ℕ
  entries_left entries_written = (num_blocks + 2 ^ 32 - entries_written) % 2 ^ 32

  unfoldable pub entries_next : ℕ → ℕ
  entries_next entries_written =
      if leb (entries_left entries_written) num_map_entries_per_block
      then entries_left entries_written
      else num_map_entries_per_block

  -- `entries_start` within a block
  unfoldable pub entries_start : ℕ
  entries_start = sha512_size + unused_space_per_block

  -- The bytes of the next entries in the map.
  unfoldable pub entries_at : List ℕ → ℕ → List ℕ
  entries_at afs_map entries_written =
      slice afs_map (entries_written * map_entry_sz % 2 ^ 32)
        (entries_next entries_written * map_entry_sz)

  module _ (hash_sha512 : List ℕ → List ℕ) where
    -- One round of the loop of `afs_create_map_blocks`, on a block of zeros.
    unfoldable pub map_block : List ℕ → ℕ → List ℕ
    map_block afs_map entries_written =
        let block =
          memcpy (replicate block_size 0) entries_start (entries_at afs_map entries_written) in
        memcpy block 0 (
          hash_sha512
            (slice block entries_start (block_size - sha512_size - unused_space_per_block)))

    -- The loop for `rounds` more blocks: the blocks, and `entries_written` at the end.
    unfoldable pub map_blocks_from : List ℕ → ℕ → ℕ → List (List ℕ) × ℕ
    map_blocks_from afs_map zero entries_written = ([], entries_written)
    map_blocks_from afs_map (suc rounds) entries_written =
        let (blocks, written) =
          map_blocks_from afs_map rounds
            ((entries_written + entries_next entries_written) % 2 ^ 32) in
        (map_block afs_map entries_written ∷ blocks, written)

    -- `afs_create_map_blocks`; the flag says whether `vmalloc` gives memory. Its size,
    -- `AFS_BLOCK_SIZE * num_map_blocks`, has 32 bits: where it wraps, the blocks overrun the memory.
    unfoldable pub afs_create_map_blocks : Bool → List ℕ → Outcome (Result (List (List ℕ)))
    afs_create_map_blocks has_memory afs_map =
        let (blocks, entries_written) = map_blocks_from afs_map num_map_blocks 0 in
        if has_memory
        then if ltb (block_size * num_map_blocks) (2 ^ 32)
          then done (if entries_written == num_blocks then ok blocks else err eio)
          else fault
        else done (err enomem)

  -- The copy of the entries of a map block into the map, as both loops of `afs_fill_map` make it.
  unfoldable pub fill_entries : List ℕ → ℕ → List ℕ → List ℕ
  fill_entries afs_map entries_read map_block =
      memcpy afs_map (entries_read * map_entry_sz % 2 ^ 32)
        (slice map_block entries_start (entries_next entries_read * map_entry_sz))

  -- The loop of `afs_fill_map` over pages that were read: the map and `entries_read` at its `break`,
  -- or when the pages are used up.
  unfoldable pub fill_from : List (List ℕ) → List ℕ → ℕ → List ℕ × ℕ
  fill_from [] afs_map entries_read = (afs_map, entries_read)
  fill_from (page ∷ pages) afs_map entries_read =
      let filled = fill_entries afs_map entries_read page in
      let next = (entries_read + entries_next entries_read) % 2 ^ 32 in
      let rest = fill_from pages filled next in
      if leb (entries_left entries_read) num_map_entries_per_block then (filled, next) else rest
