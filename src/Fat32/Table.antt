-- ===== src/Fat32/Table.antt =====
-- `fat_map` and `afs_fat32_detect` of src/modules/dm_afs_fat32.c: the FAT read from the device, and the
-- list of its empty clusters. A read outside the memory that was read, a write outside
-- `empty_clusters`, and a read through the `NULL` that `fat_data` is for a small FAT are faults.
use artifice.Base.{
  ℕ, zero, suc, ◌+◌, ◌-◌, ◌*◌, ◌/◌, ◌^◌, ◌%◌, Bool, Option, none, some, ltb, leb, ◌==◌,
  if◌then◌else◌, Outcome, fault, pending, done, List, [], ◌∷◌, ◌++◌, length, le32_at,
}
use artifice.Kernel.{Device}
use artifice.Io.{read_page}
use artifice.Allocation.{PassiveFs}
use artifice.Fat32.{FatVolume, read_boot_sector}

-- `fat_offset`, `fat_aligned_offset`, `fat_size_bytes`, `fat_aligned_size_bytes`, `page_number`
unfoldable pub fat_offset : FatVolume → ℕ
fat_offset vol = vol.reserved * 2 ^ vol.sector_order

unfoldable pub fat_aligned_offset : FatVolume → ℕ
fat_aligned_offset vol = fat_offset vol - fat_offset vol % 4096

unfoldable pub fat_size_bytes : FatVolume → ℕ
fat_size_bytes vol = vol.sec_fat * vol.bytes_sector % 2 ^ 32

unfoldable pub fat_aligned_size_bytes : FatVolume → ℕ
fat_aligned_size_bytes vol = fat_size_bytes vol + (fat_offset vol - fat_aligned_offset vol)

unfoldable pub page_number : FatVolume → ℕ
page_number vol = (fat_aligned_size_bytes vol / 4096 + 1) % 2 ^ 32

-- The data start offset, in sectors; the sum has 32 bits.
unfoldable pub data_start_off : FatVolume → ℕ
data_start_off vol = (vol.tables * vol.sec_fat + vol.reserved) % 2 ^ 32

-- `p[i]`
unfoldable pub fat_entry : List ℕ → ℕ → Option ℕ
fat_entry fat_data i =
    if leb (4 * i + 4) (length fat_data) then some (le32_at fat_data (4 * i)) else none

-- One round of the loop over the clusters: what `empty_clusters[cluster_number] = i` adds to the rest.
unfoldable pub listed : ℕ → ℕ → ℕ → Outcome (List ℕ) → Outcome (List ℕ)
listed capacity cluster_number i (done rest) =
    if leb (4 * cluster_number + 4) capacity then done (i ∷ rest) else fault
listed capacity cluster_number i fault = fault
listed capacity cluster_number i pending = pending

-- The loop over the data clusters, for `rounds` more from `i` on: the empty ones. `capacity` is the
-- size of `empty_clusters` in bytes.
unfoldable pub scan : List ℕ → ℕ → ℕ → ℕ → ℕ → Outcome (List ℕ)
scan fat_data capacity zero i cluster_number = done []
scan fat_data capacity (suc rounds) i cluster_number =
    let taken = scan fat_data capacity rounds (i + 1) cluster_number in
    let empty =
      listed capacity cluster_number i
        (scan fat_data capacity rounds (i + 1) (cluster_number + 1)) in
    elim (fat_entry fat_data i) [ none ↦ fault | some e ↦ if e == 0 then empty else taken ]

-- The volume with its list.
unfoldable pub with_clusters : FatVolume → Outcome (List ℕ) → Outcome FatVolume
with_clusters vol (done clusters) = done (record vol {
  empty_clusters = clusters;
  num_empty_clusters = length clusters;
  data_start_off = data_start_off vol;
})
with_clusters vol fault = fault
with_clusters vol pending = pending

-- The volume as far as `afs_fat32_detect` hands it on.
unfoldable pub fill_fs : FatVolume → PassiveFs → PassiveFs
fill_fs vol fs = record fs {
  total_blocks = vol.num_data_clusters;
  sectors_per_block = vol.sec_cluster;
  block_list = vol.empty_clusters;
  list_len = vol.num_empty_clusters;
  data_start_off = vol.data_start_off;
}

module _ (device : Device) where
  open device use {Disk}

  -- The pages of the FAT, `rounds` more from page `i` on. A page that cannot be read keeps what the
  -- buffer `reader` holds; `has_bio` says of each read whether it gets its memory.
  unfoldable pub fat_pages : (ℕ → Bool) → FatVolume → ℕ → ℕ → List ℕ → Disk → List ℕ
  fat_pages has_bio vol zero i reader disk = []
  fat_pages has_bio vol (suc rounds) i reader disk =
      let (_, page) =
        read_page device (has_bio i) reader ((fat_aligned_offset vol / 4096 + i) % 2 ^ 32) 0 disk in
      page ++ fat_pages has_bio vol rounds (i + 1) page disk

  -- `fat_data`: nothing is read where offset and size stay within 4096 bytes.
  unfoldable pub fat_data : (ℕ → Bool) → FatVolume → List ℕ → Disk → List ℕ
  fat_data has_bio vol reader disk =
      if ltb 4096 (fat_aligned_offset vol + fat_aligned_size_bytes vol)
      then fat_pages has_bio vol (page_number vol) 0 reader disk
      else []

  -- `fat_map`; the size of `fat_data`, `page_number * AFS_BLOCK_SIZE`, has 32 bits: where it wraps, the
  -- pages overrun it.
  unfoldable pub fat_map : (ℕ → Bool) → FatVolume → List ℕ → Disk → Outcome FatVolume
  fat_map has_bio vol reader disk =
      if ltb (page_number vol * 4096) (2 ^ 32)
      then with_clusters vol
          (scan (fat_data has_bio vol reader disk) (fat_size_bytes vol) vol.num_data_clusters 0 0)
      else fault

  -- `afs_fat32_detect`: the file system information if one is found, with the answer; `data` is here
  -- the first page of the device, and `vol` and `reader` are memory with any contents.
  unfoldable pub detected : Outcome FatVolume → PassiveFs → Outcome (Bool × PassiveFs)
  detected (done vol) fs = done (Bool.true, fill_fs vol fs)
  detected fault fs = fault
  detected pending fs = pending

  unfoldable pub with_volume :
      (ℕ → Bool) → Option FatVolume → List ℕ → Disk → PassiveFs → Outcome (Bool × PassiveFs)
  unfolding detected
  with_volume has_bio none reader disk fs = done (Bool.false, fs)
  with_volume has_bio (some vol) reader disk fs = detected (fat_map has_bio vol reader disk) fs

  unfoldable pub afs_fat32_detect :
      (ℕ → Bool)
      → (ℕ → Bool)
      → FatVolume
      → List ℕ
      → List ℕ
      → Disk
      → PassiveFs
      → Outcome (Bool × PassiveFs)
  unfolding with_volume
  afs_fat32_detect is_power_of_2 has_bio vol reader first_page disk fs =
      with_volume has_bio (read_boot_sector is_power_of_2 vol first_page) reader disk fs
