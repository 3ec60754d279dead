-- ===== src/Ext4/Tests.antt =====
-- EXT4 detection on a device with one group of eight blocks.
use artifice.Base.{
  ◌<◌, some, ℕ, ◌≡◌, refl, arith, true, false, if◌then◌else◌, leb, ◌==◌, List, [], ◌∷◌, length,
  fault, done, byte_at, le32_at, le16_at, replicate, slice, ◌++◌,
}
use artifice.Allocation.{PassiveFs}
use artifice.Ext4.{Ext4Disk, superblock_of, has_64bit, new_disk, num_groups}
use artifice.Ext4.Descriptors.{desc_page, read_group_descs}
use artifice.Ext4.Detect.{afs_ext4_detect_lem}
use artifice.Ext4.Powers.{HoldsBackups}
use mathlib.Core.Logic.{◌↔◌}
use artifice.Ext4.Bitmap.{has_backups, is_pow_n, read_bitmap}
use artifice.Ext4.Free.{free_blocks}
use artifice.Ext4.Groups.{read_bitmaps, afs_ext4_detect}
use artifice.BitVector.{create, set, clear, get}
use artifice.Io.{read_page}
use artifice.Kernel.{bits_ops, pages_device}

powers : (is_pow_n 1 3 ≡ true) × (is_pow_n 27 3 ≡ true) × (is_pow_n 12 3 ≡ false)
unfolding is_pow_n
powers = (refl, refl, refl)

-- The bitmap lies in block 2; blocks 0 to 2 of the group are in use.
abbrev disk : ℕ → List ℕ
disk s = if s == 16 then 7 ∷ [] else []

abbrev one_group : ℕ → Ext4Disk
one_group free = record {
  first_data_block = 0;
  block_count = 8;
  free_block_count = free;
  reserved_gdt_blocks = 0;
  blk_sz = 4096;
  cluster_size = 4096;
  num_grp_descs = 1;
  grp_desc_sz = 4;
  blks_per_grp = 8;
  is_sparse_super = false;
}

abbrev descs : List (List ℕ)
descs = (2 ∷ 0 ∷ 0 ∷ 0 ∷ []) ∷ []

abbrev no_fs : PassiveFs
no_fs = record {
  block_list = [];
  list_len = 0;
  total_blocks = 0;
  data_start_off = 0;
  sectors_per_block = 0;
  blocks_in_tuple = 0;
}

lists_five :
    read_bitmaps bits_ops pages_device
      (λ _. true)
      (true, true, true)
      false
      (one_group 5)
      descs
      no_fs
      disk
    ≡ done (record no_fs { block_list = 3 ∷ 4 ∷ 5 ∷ 6 ∷ 7 ∷ []; list_len = 5 })
unfolding read_bitmaps read_bitmap byte_at read_page le32_at get set create clear
lists_five = refl

-- The super block counts a block less than the bitmap.
overrun :
    read_bitmaps bits_ops pages_device
      (λ _. true)
      (true, true, true)
      false
      (one_group 4)
      descs
      no_fs
      disk
    ≡ fault
unfolding read_bitmaps read_bitmap byte_at read_page le32_at get set create clear
overrun = refl

-- Two groups of eight blocks, three of which are free, count as three groups.
group_too_many :
    num_groups (record {
      s_blocks_count_lo = 16;
      s_free_blocks_count_lo = 3;
      s_first_data_block = 0;
      s_log_blk_sz = 2;
      s_log_cluster_size = 2;
      s_blocks_per_group = 8;
      s_feature_incompat = 0;
      s_feature_ro_compat = 0;
      s_reserved_gdt_blocks = 0;
      s_desc_size = 0;
    })
    ≡ 3
unfolding num_groups
group_too_many = refl

-- A super block of 8 blocks of 4 KiB, all of which it counts as free, in one group.
abbrev super_page : List ℕ
super_page =
    replicate 1028 0
    ++ (8 ∷ 0 ∷ 0 ∷ 0 ∷ 0 ∷ 0 ∷ 0 ∷ 0 ∷ 8 ∷ 0 ∷ 0 ∷ 0 ∷ 0 ∷ 0 ∷ 0 ∷ 0 ∷ [])
    ++ (0 ∷ 0 ∷ 0 ∷ 0 ∷ 2 ∷ 0 ∷ 0 ∷ 0 ∷ 2 ∷ 0 ∷ 0 ∷ 0 ∷ 8 ∷ 0 ∷ 0 ∷ 0 ∷ [])
    ++ replicate 20 0
    ++ (83 ∷ 239 ∷ [])
    ++ replicate 3014 0

-- The descriptors lie in the block at sector 8, the bitmap in the block at sector 16.
abbrev whole_disk : ℕ → List ℕ
whole_disk s = (if s == 8 then 2 else if s == 16 then 7 else 0) ∷ replicate 4095 0

whole_pages : (i : ℕ) → length (desc_page pages_device (λ _. true) i whole_disk) ≡ 4096
unfolding desc_page read_page replicate
whole_pages i = refl

detects_five :
    afs_ext4_detect bits_ops pages_device
      (λ _. true)
      (true, true, true)
      false
      super_page
      no_fs
      whole_disk
    ≡ done (true, record no_fs { block_list = 3 ∷ 4 ∷ 5 ∷ 6 ∷ 7 ∷ []; list_len = 5 })
unfolding afs_ext4_detect read_group_descs read_bitmap byte_at read_page le32_at le16_at get set
    create clear replicate slice
detects_five = refl

some_group : 0 < num_groups (superblock_of super_page)
unfolding num_groups superblock_of le32_at le16_at replicate
some_group = omega arith

afs_ext4_detect_lem_example :
    (d : Ext4Disk) × (gd_arr : List (List ℕ)) × (new_disk false (superblock_of super_page)
      ≡ done (some d))
    × (read_group_descs pages_device (λ _. true) d whole_disk ≡ done gd_arr)
    × (length gd_arr ≡ num_groups (superblock_of super_page))
    × ((i : ℕ) → (has_backups i ≡ true) ↔ HoldsBackups i)
    × (let blocks =
          free_blocks bits_ops pages_device
            (λ _. true)
            false
            d
            gd_arr
            whole_disk
            (num_groups (superblock_of super_page))
            0 in
        afs_ext4_detect bits_ops pages_device
          (λ _. true)
          (true, true, true)
          false
          super_page
          no_fs
          whole_disk
        ≡ (if leb (length blocks) 8
            then done (true, record no_fs { block_list = blocks; list_len = length blocks })
            else fault))
unfolding superblock_of has_64bit le32_at le16_at replicate
afs_ext4_detect_lem_example =
    afs_ext4_detect_lem pages_device (λ _. true) whole_disk whole_pages bits_ops super_page no_fs
      refl refl (omega arith) (omega arith) (omega arith) (omega arith) some_group (omega arith)
      (omega arith)
