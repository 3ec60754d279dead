-- ===== src/Ntfs/Bitmap.antt =====
-- `extract_bitmap` of src/modules/dm_afs_ntfs.c, from the bitmap on that `read_file` has read: a byte says
-- of eight clusters which are in use. `hweight8` of <linux/bitops.h> is an argument.
pub mod Laws
pub mod Free
use artifice.Base.{
  ℕ, zero, suc, ◌+◌, ◌*◌, ◌/◌, ◌%◌, ◌^◌, ◌-◌, Bool, not, ◌||◌, if◌then◌else◌, leb, ◌==◌, List, [],
  ◌∷◌, ◌++◌, length, Option, none, some,
}

-- What `extract_bitmap` hands over: `empty_blocks` and `num_empty_afs_blocks`.
pub record FreeBlocks : Type 0 where
  pub empty_blocks : List ℕ
  pub num_empty_afs_blocks : ℕ

-- `(bitmap[i] >> bpos) & 0x1`
unfoldable pub bit_at : ℕ → ℕ → ℕ
bit_at byte bpos = byte / 2 ^ bpos % 2

-- The first loop: the number of clusters that are not in use.
unfoldable pub count_unused : (ℕ → ℕ) → List ℕ → ℕ
count_unused hweight8 [] = 0
count_unused hweight8 (byte ∷ bitmap) = (8 - hweight8 byte) + count_unused hweight8 bitmap

-- Blocks in front of those that the loops go on to add, unless they stop.
unfoldable pub added : List ℕ → Option (List ℕ) → Option (List ℕ)
added blocks none = none
added blocks (some rest) = some (blocks ++ rest)

-- A loop goes on behind the blocks that were added, from the next index on.
unfoldable pub then_blocks : Option (List ℕ) → ℕ → (ℕ → Option (List ℕ)) → Option (List ℕ)
unfolding added
then_blocks none empty_block_idx rest = none
then_blocks (some blocks) empty_block_idx rest =
    added blocks (rest (empty_block_idx + length blocks))

-- The second loop; `limit` is the size of `empty_blocks`, and `none` is the jump to `stop`.
module _ (blocks_per_cluster limit : ℕ) where
  -- Over the blocks of a cluster from `block_num` on, `k` of them.
  unfoldable pub add_cluster : ℕ → ℕ → ℕ → ℕ → Option (List ℕ)
  unfolding added
  add_cluster zero cluster block_num empty_block_idx = some []
  add_cluster (suc k) cluster block_num empty_block_idx =
      let block = (cluster * blocks_per_cluster + block_num) % 2 ^ 32 in
      let rest = add_cluster k cluster (suc block_num) (suc empty_block_idx) in
      if leb limit empty_block_idx then none else added (block ∷ []) rest

  -- Over the bits of byte `i` from `bpos` on, `k` of them.
  unfoldable pub scan_bits : ℕ → ℕ → ℕ → ℕ → ℕ → Option (List ℕ)
  unfolding bit_at add_cluster then_blocks
  scan_bits zero i byte bpos empty_block_idx = some []
  scan_bits (suc k) i byte bpos empty_block_idx =
      let rest = scan_bits k i byte (suc bpos) empty_block_idx in
      let unused =
        then_blocks (add_cluster blocks_per_cluster (i * 8 + bpos) 0 empty_block_idx)
          empty_block_idx (scan_bits k i byte (suc bpos)) in
      if bit_at byte bpos == 0 then unused else rest

  -- Over the bytes from byte `i` on.
  unfoldable pub scan_bytes : ℕ → List ℕ → ℕ → Option (List ℕ)
  unfolding scan_bits then_blocks
  scan_bytes i [] empty_block_idx = some []
  scan_bytes i (byte ∷ bitmap) empty_block_idx =
      then_blocks (scan_bits 8 i byte 0 empty_block_idx) empty_block_idx (scan_bytes (suc i) bitmap)

unfoldable pub handed_over : ℕ → Option (List ℕ) → Option FreeBlocks
handed_over total_unused_clusters none = none
handed_over total_unused_clusters (some blocks) =
    some (record { empty_blocks = blocks; num_empty_afs_blocks = total_unused_clusters % 2 ^ 32 })

-- `extract_bitmap`, once the bitmap is read: `none` is the status 1. The flag says whether there
-- is memory for a list that is not empty; `vmalloc` gives none of size 0.
unfoldable pub extract_bitmap : Bool → (ℕ → ℕ) → ℕ → List ℕ → Option FreeBlocks
unfolding count_unused scan_bytes handed_over
extract_bitmap has_memory hweight8 blocks_per_cluster [] = none
extract_bitmap has_memory hweight8 blocks_per_cluster (byte ∷ bitmap) =
    let total = count_unused hweight8 (byte ∷ bitmap) in
    let limit = total * blocks_per_cluster in
    if (limit == 0) || not has_memory
    then none
    else handed_over total (scan_bytes blocks_per_cluster limit 0 (byte ∷ bitmap) 0)
