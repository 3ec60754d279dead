-- ===== src/Format.antt =====
-- include/dm_afs_format.h and the constants of include/dm_afs_config.h: what lies on disk, and the
-- configuration of an instance. Sizes are in bytes.
use artifice.Base.{ℕ}

-- `AFS_BLOCK_SIZE`, `AFS_SECTOR_SIZE`, `AFS_SECTORS_PER_BLOCK`, `AFS_MIN_SIZE`
abbrev pub block_size : ℕ
block_size = 4096

abbrev pub sector_size : ℕ
sector_size = 512

abbrev pub sectors_per_block : ℕ
sectors_per_block = 8

abbrev pub min_size : ℕ
min_size = 65536

-- `NUM_MAP_BLKS_IN_SB`, `NUM_MAP_BLKS_IN_PB`
abbrev pub map_blocks_in_sb : ℕ
map_blocks_in_sb = 975

abbrev pub map_blocks_in_pb : ℕ
map_blocks_in_pb = 1019

-- `SHA1_SZ`, `SHA128_SZ`, `SHA256_SZ`, `SHA512_SZ`, `CARRIER_HASH_SZ`, `ENTROPY_HASH_SZ`
abbrev pub sha512_size : ℕ
sha512_size = 64

abbrev pub carrier_hash_size : ℕ
carrier_hash_size = 32

abbrev pub entropy_hash_size : ℕ
entropy_hash_size = 8

-- `struct afs_map_tuple`, packed: a 32-bit pointer and a 16-bit checksum.
pub record MapTuple : Type 0 where
  pub carrier_block_ptr : ℕ
  pub checksum : ℕ

-- `sizeof(struct afs_map_tuple)`
abbrev pub map_tuple_size : ℕ
map_tuple_size = 6

-- `struct afs_config`; the first six are 8 bits wide, the next three 32, the last two 64.
pub record Config : Type 0 where
  pub num_carrier_blocks : ℕ
  pub threshold : ℕ
  pub num_entropy_blocks : ℕ
  pub map_entry_sz : ℕ
  pub unused_space_per_block : ℕ
  pub num_map_entries_per_block : ℕ
  pub num_blocks : ℕ
  pub num_map_blocks : ℕ
  pub num_ptr_blocks : ℕ
  pub instance_size : ℕ
  pub bdev_size : ℕ
