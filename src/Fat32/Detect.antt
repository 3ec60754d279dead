-- ===== src/Fat32/Detect.antt =====
-- `afs_fat32_detect` of src/modules/dm_afs_fat32.c from the boot sector to the free list.
use artifice.Base.{
  ℕ, ◌*◌, ◌^◌, ◌<◌, ◌≤◌, ◌≡◌, refl, Bool, true, false, List, length, some, none, done,
}
use artifice.Allocation.{PassiveFs}
use artifice.Kernel.{Device}
use artifice.Fat32.{FatVolume, read_boot_sector}
use artifice.Fat32.Accepts.{Accepted, read_boot_sector-Accepted}
use artifice.Fat32.Clusters.{Lists, fat_map_lem}
use artifice.Fat32.Table.{
  data_start_off, fat_size_bytes, page_number, fat_data, fill_fs, detected, with_volume,
  afs_fat32_detect,
}

module _ (device : Device) where
  open device use {Disk}

  -- A device whose first page has no FAT32 boot sector is not detected, and leaves the file system
  -- information as it was.
  pub afs_fat32_detect-none :
      (is_power_of_2 has_bio : ℕ → Bool) (vol : FatVolume) (reader first_page : List ℕ)
      (disk : Disk) (fs : PassiveFs)
      → read_boot_sector is_power_of_2 vol first_page ≡ none
      → afs_fat32_detect device is_power_of_2 has_bio vol reader first_page disk fs
        ≡ done (false, fs)
  unfolding afs_fat32_detect with_volume
  afs_fat32_detect-none is_power_of_2 has_bio vol reader first_page disk fs e = rw e refl

  -- Where the boot sector is taken, the FAT has fewer than 2 ^ 20 pages, and the memory that was read and
  -- `empty_clusters` both have room for a word per data cluster, the volume has the form that the boot
  -- sector was checked for, and it is found with as many blocks as data clusters, of the sectors of a
  -- cluster, and with a free list of exactly the indices below that number whose word of the memory that was
  -- read is 0, in ascending order, and its length. That memory starts at the page in which the FAT starts,
  -- so that its words are the entries of the FAT only where this starts with the page.
  pub afs_fat32_detect_lem :
      (is_power_of_2 has_bio : ℕ → Bool) (vol vol' : FatVolume) (reader first_page : List ℕ)
      (disk : Disk) (fs : PassiveFs)
      → read_boot_sector is_power_of_2 vol first_page ≡ some vol'
      → page_number vol' < 2 ^ 20
      → 4 * vol'.num_data_clusters ≤ length (fat_data device has_bio vol' reader disk)
      → 4 * vol'.num_data_clusters ≤ fat_size_bytes vol'
      → Accepted is_power_of_2 vol'
        × (fs' : PassiveFs) × (afs_fat32_detect device is_power_of_2 has_bio vol reader first_page
              disk fs
            ≡ done (true, fs'))
        × Lists (fat_data device has_bio vol' reader disk) 0 vol'.num_data_clusters fs'.block_list
        × (fs'.list_len ≡ length fs'.block_list)
        × (fs'.total_blocks ≡ vol'.num_data_clusters)
        × (fs'.sectors_per_block ≡ vol'.sec_cluster)
        × (fs'.data_start_off ≡ data_start_off vol')
  unfolding afs_fat32_detect with_volume detected fill_fs
  afs_fat32_detect_lem is_power_of_2 has_bio vol vol' reader first_page disk fs e pages h k =
      let (listing, run, lists, len, start, total, sectors) =
        fat_map_lem device has_bio vol' reader disk pages h k in
      (
        read_boot_sector-Accepted is_power_of_2 vol vol' first_page e,
        fill_fs listing fs,
        rw (e, run) refl,
        lists,
        len,
        total,
        sectors,
        start,
      )
