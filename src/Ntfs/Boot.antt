-- ===== src/Ntfs/Boot.antt =====
-- The boot sector in src/modules/dm_afs_ntfs.c (`read_boot_sector`, with `struct ntfs_bpb`,
-- `struct ntfs_ebpb` and `struct ntfs_boot_sector`), and the reads that use it first.
pub mod Laws
use artifice.Base.{
  ℕ, zero, suc, ◌+◌, ◌*◌, ◌/◌, ◌%◌, ◌^◌, ◌-◌, Bool, ◌&&◌, if◌then◌else◌, ltb, ◌==◌, List, [], ◌∷◌,
  byte_at, le16_at, le32_at, memcpy, Option, none, some, Outcome, fault, pending, done, Result, ok,
  err,
}
use artifice.Format.{block_size, sector_size}
use artifice.Kernel.{Device}
use artifice.Io.{read_page}

-- `struct ntfs_volume`, as far as the boot sector fills it in; the fields named `afs_…` and
-- `mft_records_per_cluster` have 8 bits.
pub record NtfsVolume : Type 0 where
  pub bytes_per_sector : ℕ
  pub sector_count : ℕ
  pub cluster_count : ℕ
  pub sectors_per_cluster : ℕ
  pub bytes_per_cluster : ℕ
  pub mft_cluster : ℕ
  pub mft_mirror_cluster : ℕ
  pub mft_record_size : ℕ
  pub afs_blocks_per_cluster : ℕ
  pub mft_records_per_cluster : ℕ
  pub num_afs_blocks : ℕ
  pub afs_sectors_per_cluster : ℕ

-- A field of 64 bits.
unfoldable pub le64_at : List ℕ → ℕ → ℕ
unfolding le32_at
le64_at bytes i = le32_at bytes i + le32_at bytes (i + 4) * 2 ^ 32

-- The bytes from `i` on are these.
unfoldable pub bytes_are : List ℕ → ℕ → List ℕ → Bool
unfolding byte_at
bytes_are sector i [] = 0 == 0
bytes_are sector i (b ∷ bs) = (byte_at sector i == b) && bytes_are sector (suc i) bs

-- `is_ntfs_magic_value` on `oem_id`: the eight characters of "NTFS    ".
unfoldable pub is_ntfs_magic_value : List ℕ → Bool
unfolding bytes_are
is_ntfs_magic_value sector = bytes_are sector 3 (78 ∷ 84 ∷ 70 ∷ 83 ∷ 32 ∷ 32 ∷ 32 ∷ 32 ∷ [])

-- `mft_record_size` from `clusters_per_record`, which the code takes as an unsigned byte.
unfoldable pub record_size : ℕ → ℕ → ℕ
record_size bytes_per_cluster clusters_per_record =
    if ltb 0 clusters_per_record then bytes_per_cluster * clusters_per_record % 2 ^ 32 else 1

-- The fields that follow from those of the boot sector; a division by zero is a fault.
unfoldable pub volume_of : ℕ → ℕ → ℕ → ℕ → ℕ → ℕ → Outcome (Option NtfsVolume)
unfolding record_size
volume_of bytes_per_sector sectors_per_cluster sector_count mft_cluster mft_mirror_cluster
      clusters_per_record =
    let bytes_per_cluster = bytes_per_sector * sectors_per_cluster in
    let mft_record_size = record_size bytes_per_cluster clusters_per_record in
    let afs_blocks_per_cluster = bytes_per_cluster / block_size % 2 ^ 8 in
    let cluster_count = sector_count / sectors_per_cluster in
    if sectors_per_cluster == 0
    then fault
    else if ltb 0 (bytes_per_cluster % block_size)
    then done none
    else if mft_record_size == 0
    then fault
    else done (
        some (record {
          bytes_per_sector = bytes_per_sector;
          sector_count = sector_count;
          cluster_count = cluster_count;
          sectors_per_cluster = sectors_per_cluster;
          bytes_per_cluster = bytes_per_cluster;
          mft_cluster = mft_cluster;
          mft_mirror_cluster = mft_mirror_cluster;
          mft_record_size = mft_record_size;
          afs_blocks_per_cluster = afs_blocks_per_cluster;
          mft_records_per_cluster = bytes_per_cluster / mft_record_size % 2 ^ 8;
          num_afs_blocks = cluster_count * afs_blocks_per_cluster % 2 ^ 32;
          afs_sectors_per_cluster = bytes_per_cluster / sector_size % 2 ^ 8;
        }))

-- `read_boot_sector`; `none` where it is not a boot sector that the code takes.
unfoldable pub read_boot_sector : List ℕ → Outcome (Option NtfsVolume)
unfolding is_ntfs_magic_value volume_of le16_at le64_at byte_at
read_boot_sector sector =
    if is_ntfs_magic_value sector
      && (byte_at sector 16 == 0)
      && (le16_at sector 17 == 0)
      && (le16_at sector 19 == 0)
      && (le16_at sector 22 == 0)
    then volume_of (le16_at sector 11) (byte_at sector 13) (le64_at sector 40) (le64_at sector 48)
        (le64_at sector 56) (byte_at sector 64)
    else done none

unfoldable pub some_read :
    Outcome (Result (Unit {0}) × List ℕ) → Outcome (Option (Result (Unit {0}) × List ℕ))
some_read (done r) = done (some r)
some_read fault = fault
some_read pending = pending

module _ (device : Device) (has_bio : ℕ → Bool) where
  open device use {Disk}

  -- The loop of `read_ntfs_cluster` from `block_offset` on: the status, and the memory. Each round of
  -- the loop advances by `AFS_BLOCK_SIZE`, and reads the block with the number of the offset.
  unfoldable pub cluster_from :
      ℕ → List ℕ → NtfsVolume → ℕ → ℕ → Disk → Outcome (Result (Unit {0}) × List ℕ)
  cluster_from zero memory vol block_num block_offset disk = pending
  cluster_from (suc fuel) memory vol block_num block_offset disk =
      let (ret, page) =
        read_page device (has_bio block_offset) [] ((block_num + block_offset) % 2 ^ 32) 0 disk in
      let rest =
        cluster_from fuel (memcpy memory block_offset page) vol block_num
          (block_offset + block_size) disk in
      if ltb block_offset vol.afs_blocks_per_cluster
      then elim ret [ ok _ ↦ rest | err e ↦ done (err e, memory) ]
      else done (ok tt, memory)

  -- `read_ntfs_cluster`
  unfoldable pub read_ntfs_cluster :
      ℕ → List ℕ → NtfsVolume → ℕ → Disk → Outcome (Result (Unit {0}) × List ℕ)
  unfolding cluster_from
  read_ntfs_cluster fuel memory vol cluster_number disk =
      cluster_from fuel memory vol (cluster_number * vol.afs_blocks_per_cluster % 2 ^ 32) 0 disk

  -- `read_mft_records`: the record number is divided by `mft_records_per_cluster`, which faults at zero.
  -- `none` is the status 1 for a record that does not start a cluster.
  unfoldable pub read_mft_records :
      ℕ → List ℕ → NtfsVolume → ℕ → Disk → Outcome (Option (Result (Unit {0}) × List ℕ))
  unfolding read_ntfs_cluster
  read_mft_records fuel memory vol number disk =
      let cluster = (vol.mft_cluster + number / vol.mft_records_per_cluster) % 2 ^ 64 in
      if vol.mft_records_per_cluster == 0
      then fault
      else if number % vol.mft_records_per_cluster == 0
      then some_read (read_ntfs_cluster fuel memory vol cluster disk)
      else done none
