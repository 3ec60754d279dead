-- ===== src/Fat32/Tests.antt =====
-- The FAT32 detection at a small volume: sectors of 512 bytes, clusters of 4096, one reserved sector and
-- a FAT of nine sectors, of which the device holds what is described.
use artifice.Base.{
  ℕ, ◌*◌, ◌^◌, ◌<◌, ◌≤◌, ◌≡◌, refl, arith, Bool, true, some, done, List, [], ◌∷◌, ◌++◌, length,
  replicate, slice, le16_at, le32_at, ◌==◌, ◌||◌,
}
use artifice.Kernel.{pages_device}
use artifice.Io.{page_sector, transfer, afs_blkdev_io, read_page}
use artifice.Allocation.{PassiveFs}
use artifice.Fat32.Detect.{afs_fat32_detect_lem}
use artifice.Fat32.{
  FatVolume, read_boot_sector, boot_sector_of, fat_read_dos_2_0_bpb, fat_read_dos_3_31_bpb,
  read_fat32_part, fat_read_fat32_ebpb, fat_read_nonfat32_ebpb, num_data_sectors, fat32_fields,
  count_clusters, bsr, bsr_from,
}
use artifice.Fat32.Table.{
  afs_fat32_detect, scan, fat_entry, listed, fat_data, fat_pages, fat_size_bytes, fat_offset,
  fat_aligned_offset, fat_aligned_size_bytes, page_number, data_start_off,
}
use artifice.Fat32.Clusters.{Lists}
use artifice.Fat32.Accepts.{Accepted, read_boot_sector-Accepted}

abbrev volume : FatVolume
volume = record {
  empty_clusters = [];
  num_data_clusters = 6;
  data_start_off = 0;
  oem_name = [];
  num_empty_clusters = 0;
  bytes_sector = 512;
  sector_order = 9;
  sec_cluster = 8;
  sec_cluster_order = 3;
  cluster_order = 12;
  reserved = 1;
  tables = 1;
  root_entries = 0;
  media_desc = 0;
  total_sec = 58;
  sec_fat = 9;
  sec_track = 0;
  num_heads = 0;
  hidden_sec = 0;
  driv_desc = 0;
  version = 0;
  root_dir_start = 2;
  fs_info_sec = 0;
  alt_boot_sec = 0;
  phys_driv_num = 0;
  ext_boot_sig = 0;
  vol_id = 0;
  volume_label = [];
  fs_type = [];
}

-- The first 512 bytes of a device with that volume.
abbrev boot_bytes : List ℕ
boot_bytes =
    replicate 11 0
    ++ (0 ∷ 2 ∷ 8 ∷ 1 ∷ 0 ∷ 1 ∷ 0 ∷ 0 ∷ 58 ∷ 0 ∷ 0 ∷ 0 ∷ 0 ∷ [])
    ++ replicate 12 0
    ++ (9 ∷ 0 ∷ 0 ∷ 0 ∷ 0 ∷ 0 ∷ 0 ∷ 0 ∷ 2 ∷ 0 ∷ 0 ∷ 0 ∷ 0 ∷ 0 ∷ [])
    ++ replicate 462 0

-- Clusters 2 and 4 are free.
abbrev page : List ℕ
page =
    (7 ∷ 0 ∷ 0 ∷ 0 ∷ 7 ∷ 0 ∷ 0 ∷ 0 ∷ 0 ∷ 0 ∷ 0 ∷ 0 ∷ 7 ∷ 0 ∷ 0 ∷ 0 ∷ 0 ∷ 0 ∷ 0 ∷ 0 ∷ 7 ∷ 0 ∷ 0 ∷ 0
      ∷ [])

abbrev is_512_or_8 : ℕ → Bool
is_512_or_8 n = n == 512 || n == 8

abbrev disk : ℕ → List ℕ
disk s = page

always : ℕ → Bool
always i = true

lists_free : scan page 4608 6 0 0 ≡ done (2 ∷ 4 ∷ [])
unfolding scan fat_entry listed le32_at
lists_free = refl

-- The volume that the boot sector describes.
abbrev booted : FatVolume
booted = record volume {
  oem_name = 0 ∷ 0 ∷ 0 ∷ 0 ∷ 0 ∷ 0 ∷ 0 ∷ 0 ∷ [];
  phys_driv_num = 9;
  volume_label = 0 ∷ 2 ∷ 0 ∷ 0 ∷ 0 ∷ 0 ∷ 0 ∷ 0 ∷ 0 ∷ 0 ∷ 0 ∷ [];
  fs_type = 0 ∷ 0 ∷ 0 ∷ 0 ∷ 0 ∷ 0 ∷ 0 ∷ 0 ∷ [];
}

accepted : read_boot_sector is_512_or_8 volume boot_bytes ≡ some booted
unfolding read_boot_sector boot_sector_of fat_read_dos_2_0_bpb fat_read_dos_3_31_bpb read_fat32_part
    fat_read_fat32_ebpb fat32_fields count_clusters bsr bsr_from le16_at le32_at replicate slice
    fat_read_nonfat32_ebpb num_data_sectors
accepted = refl

read_boot_sector-Accepted_example : Accepted is_512_or_8 booted
read_boot_sector-Accepted_example =
    read_boot_sector-Accepted is_512_or_8 volume booted boot_bytes accepted

room :
    (page_number booted < 2 ^ 20)
    × (4 * 6 ≤ length (fat_data pages_device always booted [] disk))
    × (4 * 6 ≤ fat_size_bytes booted)
unfolding fat_data fat_pages fat_size_bytes fat_aligned_offset fat_aligned_size_bytes fat_offset
    page_number always page_sector read_page afs_blkdev_io transfer
room = (omega arith, omega arith, omega arith)

abbrev no_fs : PassiveFs
no_fs = record {
  block_list = [];
  list_len = 0;
  total_blocks = 0;
  data_start_off = 0;
  sectors_per_block = 0;
  blocks_in_tuple = 0;
}

afs_fat32_detect_lem_example :
    Accepted is_512_or_8 booted
    × (fs' : PassiveFs) × (afs_fat32_detect pages_device is_512_or_8 always volume [] boot_bytes
          disk no_fs
        ≡ done (true, fs'))
    × Lists (fat_data pages_device always booted [] disk) 0 6 fs'.block_list
    × (fs'.list_len ≡ length fs'.block_list)
    × (fs'.total_blocks ≡ 6)
    × (fs'.sectors_per_block ≡ 8)
    × (fs'.data_start_off ≡ data_start_off booted)
afs_fat32_detect_lem_example =
    afs_fat32_detect_lem pages_device is_512_or_8 always volume booted [] boot_bytes disk no_fs
      accepted room.0 room.1 room.2
