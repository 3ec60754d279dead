-- ===== src/Fat32.antt =====
-- src/modules/dm_afs_fat32.c: the detection of a FAT32 file system. Here are its structures and the
-- reading of the boot sector; `-1` is `none`. Memory for the structures is taken for granted.
pub mod Table
pub mod Clusters
pub mod Accepts
pub mod Detect
mod Tests
use artifice.Base.{
  ℕ, zero, suc, ◌+◌, ◌-◌, ◌*◌, ◌/◌, ◌^◌, ◌%◌, Bool, ◌&&◌, ◌||◌, not, Option, none, some, ltb, leb,
  ◌==◌, if◌then◌else◌, List, take, slice, byte_at, le16_at, le32_at,
}

-- `struct fat32_ebpb`
pub record Fat32Ebpb : Type 0 where
  pub sec_fat : ℕ
  pub drive_desc : ℕ
  pub version : ℕ
  pub root_start_clust : ℕ
  pub fs_info_sec : ℕ
  pub alt_boot_sec : ℕ

-- `struct nonfat32_ebpb`
pub record NonFat32Ebpb : Type 0 where
  pub physical_drive_num : ℕ
  pub extended_boot_sig : ℕ
  pub volume_id : ℕ
  pub volume_label : List ℕ
  pub fs_type : List ℕ

-- `struct fat_boot_sector`, its fields as `le16_to_cpu` and `le32_to_cpu` give them. The member
-- `nonfat32_ebpb` of the union starts where `fat32_ebpb` does.
pub record FatBootSector : Type 0 where
  pub oem_name : List ℕ
  pub bytes_sec : ℕ
  pub sec_cluster : ℕ
  pub res_sec : ℕ
  pub num_tables : ℕ
  pub max_root_ent : ℕ
  pub total_sectors : ℕ
  pub media_desc : ℕ
  pub sec_fat : ℕ
  pub sec_track : ℕ
  pub num_heads : ℕ
  pub hidden_sec : ℕ
  pub total_sec_32 : ℕ
  pub fat32_ebpb : Fat32Ebpb
  pub nonfat32_ebpb : NonFat32Ebpb

-- The packed layout of `struct fat_boot_sector` over the first bytes of the device.
unfoldable pub boot_sector_of : List ℕ → FatBootSector
boot_sector_of bytes = record {
  oem_name = slice bytes 3 8;
  bytes_sec = le16_at bytes 11;
  sec_cluster = byte_at bytes 13;
  res_sec = le16_at bytes 14;
  num_tables = byte_at bytes 16;
  max_root_ent = le16_at bytes 17;
  total_sectors = le16_at bytes 19;
  media_desc = byte_at bytes 21;
  sec_fat = le16_at bytes 22;
  sec_track = le16_at bytes 24;
  num_heads = le16_at bytes 26;
  hidden_sec = le32_at bytes 28;
  total_sec_32 = le32_at bytes 32;
  fat32_ebpb = record {
    sec_fat = le32_at bytes 36;
    drive_desc = le16_at bytes 40;
    version = le16_at bytes 42;
    root_start_clust = le32_at bytes 44;
    fs_info_sec = le16_at bytes 48;
    alt_boot_sec = le16_at bytes 50;
  };
  nonfat32_ebpb = record {
    physical_drive_num = byte_at bytes 36;
    extended_boot_sig = byte_at bytes 38;
    volume_id = le32_at bytes 39;
    volume_label = slice bytes 43 11;
    fs_type = slice bytes 54 8;
  };
}

-- `struct fat_volume`, but for the FAT itself and the counts of files, which nothing sets.
pub record FatVolume : Type 0 where
  pub empty_clusters : List ℕ
  pub num_data_clusters : ℕ
  pub data_start_off : ℕ
  pub oem_name : List ℕ
  pub num_empty_clusters : ℕ
  pub bytes_sector : ℕ
  pub sector_order : ℕ
  pub sec_cluster : ℕ
  pub sec_cluster_order : ℕ
  pub cluster_order : ℕ
  pub reserved : ℕ
  pub tables : ℕ
  pub root_entries : ℕ
  pub media_desc : ℕ
  pub total_sec : ℕ
  pub sec_fat : ℕ
  pub sec_track : ℕ
  pub num_heads : ℕ
  pub hidden_sec : ℕ
  pub driv_desc : ℕ
  pub version : ℕ
  pub root_dir_start : ℕ
  pub fs_info_sec : ℕ
  pub alt_boot_sec : ℕ
  pub phys_driv_num : ℕ
  pub ext_boot_sig : ℕ
  pub vol_id : ℕ
  pub volume_label : List ℕ
  pub fs_type : List ℕ

-- `bsr` of include/dm_afs.h: the position of the highest set bit. At 0, where the instruction leaves
-- its result undefined, it is 0 here; each use at 0 is rejected by the test of `is_power_of_2` beside it.
unfoldable pub bsr_from : ℕ → ℕ → ℕ
bsr_from zero n = 0
bsr_from (suc bits) n = if ltb n 2 then 0 else 1 + bsr_from bits (n / 2)

unfoldable pub bsr : ℕ → ℕ
bsr n = bsr_from 64 n

-- `fat_read_dos_2_0_bpb`; the first argument is the kernel's `is_power_of_2`.
unfoldable pub fat_read_dos_2_0_bpb : (ℕ → Bool) → FatVolume → FatBootSector → Option FatVolume
fat_read_dos_2_0_bpb is_power_of_2 vol boot_sec =
    let sector_order = bsr boot_sec.bytes_sec in
    let sec_cluster_order = bsr boot_sec.sec_cluster in
    if not (is_power_of_2 boot_sec.bytes_sec && leb 5 sector_order && leb sector_order 12)
    then none
    else if not (is_power_of_2 boot_sec.sec_cluster && leb sec_cluster_order 7)
    then none
    else if not (boot_sec.num_tables == 1 || boot_sec.num_tables == 2)
    then none
    else some (record vol {
      bytes_sector = boot_sec.bytes_sec;
      sector_order = sector_order;
      sec_cluster = boot_sec.sec_cluster;
      sec_cluster_order = sec_cluster_order;
      cluster_order = sector_order + sec_cluster_order;
      reserved = boot_sec.res_sec;
      tables = boot_sec.num_tables;
      root_entries = boot_sec.max_root_ent;
      total_sec = boot_sec.total_sectors;
      media_desc = boot_sec.media_desc;
      sec_fat = boot_sec.sec_fat;
    })

-- `fat_read_dos_3_31_bpb`, which always succeeds
unfoldable pub fat_read_dos_3_31_bpb : FatVolume → FatBootSector → FatVolume
fat_read_dos_3_31_bpb vol boot_sec = record vol {
  sec_track = boot_sec.sec_track;
  num_heads = boot_sec.num_heads;
  hidden_sec = boot_sec.hidden_sec;
  total_sec = if vol.total_sec == 0 then boot_sec.total_sec_32 else vol.total_sec;
}

-- `fat_read_nonfat32_ebpb`, which always succeeds
unfoldable pub fat_read_nonfat32_ebpb : FatVolume → NonFat32Ebpb → FatVolume
fat_read_nonfat32_ebpb vol ebpb = record vol {
  phys_driv_num = ebpb.physical_drive_num;
  ext_boot_sig = ebpb.extended_boot_sig;
  vol_id = ebpb.volume_id;
  volume_label = ebpb.volume_label;
  fs_type = ebpb.fs_type;
}

-- The end of `fat_read_fat32_ebpb`, once `sec_fat` is settled.
unfoldable pub fat32_fields : FatVolume → Fat32Ebpb → Option FatVolume
fat32_fields vol ebpb =
    let fs_info_sec = if ebpb.fs_info_sec == 0xffff then 0 else ebpb.fs_info_sec in
    if not (ebpb.version == 0)
    then none
    else if ebpb.root_start_clust == 0
    then none
    else if not (fs_info_sec == 0) && ltb vol.sector_order 9
    then none
    else some (record vol {
      driv_desc = ebpb.drive_desc;
      version = ebpb.version;
      root_dir_start = ebpb.root_start_clust;
      fs_info_sec = fs_info_sec;
      alt_boot_sec = ebpb.alt_boot_sec;
    })

-- `fat_read_fat32_ebpb`; the shift is of a `size_t`, of 64 bits.
unfoldable pub fat_read_fat32_ebpb : FatVolume → Fat32Ebpb → Option FatVolume
fat_read_fat32_ebpb vol ebpb =
    if not (ebpb.sec_fat == 0)
    then if ebpb.sec_fat * 2 ^ vol.sector_order % 2 ^ 64 / 2 ^ vol.sector_order == ebpb.sec_fat
      then fat32_fields (record vol { sec_fat = ebpb.sec_fat }) ebpb
      else none
    else fat32_fields vol ebpb

-- `num_data_sectors` of `read_boot_sector`, in 32 bits
unfoldable pub num_data_sectors : FatVolume → ℕ
num_data_sectors vol =
    (vol.total_sec
      + 3 * 2 ^ 32
      - vol.reserved
      - vol.sec_fat * vol.tables % 2 ^ 32
      - vol.root_entries * 32 / 2 ^ vol.sector_order)
    % 2 ^ 32

-- The end of `read_boot_sector`.
unfoldable pub count_clusters : FatVolume → FatVolume
count_clusters vol = record vol { num_data_clusters = num_data_sectors vol / vol.sec_cluster }

unfoldable pub read_fat32_part : FatVolume → FatBootSector → Option FatVolume
read_fat32_part vol boot_sec = elim (fat_read_fat32_ebpb vol boot_sec.fat32_ebpb) [
  | none ↦ none
  | some vol' ↦ some (count_clusters (fat_read_nonfat32_ebpb vol' boot_sec.nonfat32_ebpb))
]

-- `read_boot_sector`, which looks at the first 512 bytes
unfoldable pub read_boot_sector : (ℕ → Bool) → FatVolume → List ℕ → Option FatVolume
read_boot_sector is_power_of_2 vol bytes =
    let boot_sec = boot_sector_of (take 512 bytes) in
    elim (fat_read_dos_2_0_bpb is_power_of_2 (record vol { oem_name = boot_sec.oem_name })
      boot_sec) [
        | none ↦ none
        | some vol' ↦ read_fat32_part (fat_read_dos_3_31_bpb vol' boot_sec) boot_sec
      ]
