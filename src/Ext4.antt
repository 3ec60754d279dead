-- ===== src/Ext4.antt =====
-- src/modules/dm_afs_ext4.c: the super block of an EXT4 file system and what Artifice needs of it. The
-- constructors of the structures have memory; the checks of them with `IS_ERR` never fire. The debug output
-- is left out. `is_64bit` is a variable of the module, which keeps its value from one call to the next.
pub mod Descriptors
pub mod Bitmap
pub mod Groups
pub mod Powers
pub mod Bits
pub mod Free
pub mod Detect
mod Tests
use artifice.Base.{
  ℕ, ◌+◌, ◌/◌, ◌%◌, ◌^◌, Bool, true, false, ◌||◌, if◌then◌else◌, leb, ◌==◌, List, le16_at, le32_at,
  Option, none, some, Outcome, fault, done,
}

-- The fields of `struct ext4_superblock` that are used.
pub record Ext4Superblock : Type 0 where
  pub s_blocks_count_lo : ℕ
  pub s_free_blocks_count_lo : ℕ
  pub s_first_data_block : ℕ
  pub s_log_blk_sz : ℕ
  pub s_log_cluster_size : ℕ
  pub s_blocks_per_group : ℕ
  pub s_feature_incompat : ℕ
  pub s_feature_ro_compat : ℕ
  pub s_reserved_gdt_blocks : ℕ
  pub s_desc_size : ℕ

-- `struct ext4_disk`; `gd_arr` is what `read_group_descs` returns.
pub record Ext4Disk : Type 0 where
  pub first_data_block : ℕ
  pub block_count : ℕ
  pub free_block_count : ℕ
  pub reserved_gdt_blocks : ℕ
  pub blk_sz : ℕ
  pub cluster_size : ℕ
  pub num_grp_descs : ℕ
  pub grp_desc_sz : ℕ
  pub blks_per_grp : ℕ
  pub is_sparse_super : Bool

-- `EXT4_GROUP0_PAD`
abbrev pub group0_pad : ℕ
group0_pad = 1024

-- The fields, at their offsets in the first 4KB of the device.
unfoldable pub superblock_of : List ℕ → Ext4Superblock
superblock_of page = record {
  s_blocks_count_lo = le32_at page (group0_pad + 4);
  s_free_blocks_count_lo = le32_at page (group0_pad + 12);
  s_first_data_block = le32_at page (group0_pad + 20);
  s_log_blk_sz = le32_at page (group0_pad + 24);
  s_log_cluster_size = le32_at page (group0_pad + 28);
  s_blocks_per_group = le32_at page (group0_pad + 32);
  s_feature_incompat = le32_at page (group0_pad + 96);
  s_feature_ro_compat = le32_at page (group0_pad + 100);
  s_reserved_gdt_blocks = le16_at page (group0_pad + 206);
  s_desc_size = le16_at page (group0_pad + 254);
}

-- `s_feature_incompat & EXT4_INCOMPAT_64BIT`, which is 0x80, and
-- `s_feature_ro_compat & EXT4_RO_COMPAT_SPARSE_SUPER`, which is 0x1
unfoldable pub has_64bit : Ext4Superblock → Bool
has_64bit sb = sb.s_feature_incompat / 128 % 2 == 1

unfoldable pub has_sparse_super : Ext4Superblock → Bool
has_sparse_super sb = sb.s_feature_ro_compat % 2 == 1

-- `read_superblock`: the super block if there is one, and `is_64bit` afterwards.
unfoldable pub read_superblock : Bool → List ℕ → Option Ext4Superblock × Bool
unfolding superblock_of has_64bit le16_at le32_at
read_superblock is_64bit page =
    let sb = superblock_of page in
    if le16_at page (group0_pad + 56) == 61267
    then (some sb, has_64bit sb || is_64bit)
    else (none, is_64bit)

-- The number of groups, which is rounded up unless the blocks of a group divide the number of free blocks.
unfoldable pub num_groups : Ext4Superblock → ℕ
num_groups sb =
    if sb.s_free_blocks_count_lo % sb.s_blocks_per_group == 0
    then sb.s_blocks_count_lo / sb.s_blocks_per_group
    else sb.s_blocks_count_lo / sb.s_blocks_per_group + 1

-- `new_disk`: a shift of 1 to the sign bit or beyond, and a division by no blocks in a group, are faults.
-- Without groups `vmalloc` of 0 bytes gives `NULL`, and so does `new_disk`.
unfoldable pub new_disk : Bool → Ext4Superblock → Outcome (Option Ext4Disk)
unfolding num_groups has_sparse_super
new_disk is_64bit sb =
    if leb 21 sb.s_log_blk_sz || leb 21 sb.s_log_cluster_size || (sb.s_blocks_per_group == 0)
    then fault
    else if num_groups sb == 0
    then done none
    else done (
        some (record {
          first_data_block = sb.s_first_data_block;
          block_count = sb.s_blocks_count_lo;
          free_block_count = sb.s_free_blocks_count_lo;
          reserved_gdt_blocks = sb.s_reserved_gdt_blocks;
          blk_sz = 2 ^ (10 + sb.s_log_blk_sz);
          cluster_size = 2 ^ (10 + sb.s_log_cluster_size);
          num_grp_descs = num_groups sb;
          grp_desc_sz = if is_64bit then sb.s_desc_size else 32;
          blks_per_grp = sb.s_blocks_per_group;
          is_sparse_super = has_sparse_super sb;
        }))
