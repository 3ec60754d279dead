-- ===== src/Ntfs/Tests.antt =====
-- Concrete runs for src/modules/dm_afs_ntfs.c: a boot sector of clusters of two blocks, and a bitmap of
-- one byte.
use artifice.Base.{
  ℕ, zero, suc, ◌*◌, ◌-◌, ◌%◌, ◌^◌, ◌≤◌, ◌<◌, ◌≡◌, refl, arith, Bool, true, if◌then◌else◌, List, [],
  ◌∷◌, ◌++◌, length, some, fault, done, Among, byte_at, le16_at, le32_at, ltb,
}
use artifice.Kernel.{pages_device}
use artifice.Ntfs.Boot.{
  NtfsVolume, read_boot_sector, volume_of, record_size, is_ntfs_magic_value, bytes_are, le64_at,
  read_mft_records,
}
use artifice.Ntfs.Boot.Laws.{read_boot_sector-read_mft_records}
use artifice.Ntfs.Bitmap.{FreeBlocks, bit_at, count_unused, extract_bitmap, scan_bytes, handed_over}
use artifice.Ntfs.Bitmap.Laws.{zeros}
use artifice.Ntfs.Bitmap.Free.{Counts, IsFree, extract_bitmap_lem}

-- 512 bytes in a sector, 16 sectors in a cluster, and 246 for -10: records of 1024 bytes.
abbrev sector : List ℕ
sector =
    (235 ∷ 82 ∷ 144 ∷ [])
    ++ ((78 ∷ 84 ∷ 70 ∷ 83 ∷ 32 ∷ 32 ∷ 32 ∷ 32 ∷ [])
        ++ ((0 ∷ 2 ∷ 16 ∷ 0 ∷ 0 ∷ 0 ∷ 0 ∷ 0 ∷ 0 ∷ 0 ∷ 248 ∷ 0 ∷ 0 ∷ [])
            ++ ((63 ∷ 0 ∷ 255 ∷ 0 ∷ 0 ∷ 8 ∷ 0 ∷ 0 ∷ 0 ∷ 0 ∷ 0 ∷ 0 ∷ 128 ∷ 0 ∷ 128 ∷ 0 ∷ [])
                ++ ((0 ∷ 16 ∷ 0 ∷ 0 ∷ 0 ∷ 0 ∷ 0 ∷ 0 ∷ [])
                    ++ ((4 ∷ 0 ∷ 0 ∷ 0 ∷ 0 ∷ 0 ∷ 0 ∷ 0 ∷ [])
                        ++ ((2 ∷ 0 ∷ 0 ∷ 0 ∷ 0 ∷ 0 ∷ 0 ∷ 0 ∷ []) ++ (246 ∷ 0 ∷ 0 ∷ 0 ∷ [])))))))

abbrev volume : NtfsVolume
volume = record {
  bytes_per_sector = 512;
  sector_count = 4096;
  cluster_count = 256;
  sectors_per_cluster = 16;
  bytes_per_cluster = 8192;
  mft_cluster = 4;
  mft_mirror_cluster = 2;
  mft_record_size = 2015232;
  afs_blocks_per_cluster = 2;
  mft_records_per_cluster = 0;
  num_afs_blocks = 512;
  afs_sectors_per_cluster = 16;
}

sector-volume : read_boot_sector sector ≡ done (some volume)
unfolding read_boot_sector volume_of record_size is_ntfs_magic_value bytes_are le64_at le16_at
    le32_at byte_at
sector-volume = refl

abbrev all_bytes : List ℕ → Bool
all_bytes [] = true
all_bytes (b ∷ bs) = if ltb b 256 then all_bytes bs else ltb 1 0

all_bytes_lem : (bs : List ℕ) → all_bytes bs ≡ true → (i : ℕ) → byte_at bs i < 2 ^ 8
unfolding byte_at
all_bytes_lem [] h i = omega arith
all_bytes_lem (b ∷ bs) h zero = ground arith
all_bytes_lem (b ∷ bs) h (suc i) =
    let rest : all_bytes bs ≡ true = ground arith in all_bytes_lem bs rest i

read_boot_sector-read_mft_records_example :
    (volume.bytes_per_cluster ≡ volume.bytes_per_sector * volume.sectors_per_cluster)
    × (volume.bytes_per_cluster % 4096 ≡ 0)
    × (2 ≤ byte_at sector 64
        → (fuel : ℕ) (memory : List ℕ) (number : ℕ) (disk : pages_device.Disk)
        → read_mft_records pages_device (λ _. true) fuel memory volume number disk ≡ fault)
    × (byte_at sector 64 ≡ 1 → volume.mft_records_per_cluster ≡ 1)
read_boot_sector-read_mft_records_example =
    read_boot_sector-read_mft_records pages_device (λ _. true) sector volume
      (all_bytes_lem sector refl) sector-volume

abbrev hweight8 : ℕ → ℕ
hweight8 byte = 8 - zeros 8 byte 0

zeros-le : (k byte bpos : ℕ) → zeros k byte bpos ≤ k
unfolding zeros
zeros-le zero byte bpos = omega arith
zeros-le (suc k) byte bpos = let rest = zeros-le k byte (suc bpos) in ground (arith, rest)

hweight8-Counts : Counts hweight8
hweight8-Counts byte small = omega (arith, zeros-le 8 byte 0)

-- Cluster 2 is not in use.
abbrev bitmap : List ℕ
bitmap = 251 ∷ []

free_there : 0 < count_unused hweight8 bitmap * 2
unfolding count_unused zeros bit_at
free_there = omega arith

extract_bitmap_lem_example :
    (r : FreeBlocks) × (extract_bitmap true hweight8 2 bitmap ≡ some r)
    × ((x : ℕ) → Among x r.empty_blocks → IsFree 2 0 bitmap x)
    × ((x : ℕ) → IsFree 2 0 bitmap x → Among x r.empty_blocks)
    × (length r.empty_blocks ≡ count_unused hweight8 bitmap * 2)
    × (r.num_empty_afs_blocks ≡ count_unused hweight8 bitmap % 2 ^ 32)
extract_bitmap_lem_example =
    extract_bitmap_lem hweight8 2 bitmap hweight8-Counts (omega arith, tt) free_there

-- Two blocks are listed, and one is handed over.
extract_bitmap_run :
    extract_bitmap true hweight8 2 bitmap
    ≡ some (record { empty_blocks = 4 ∷ 5 ∷ []; num_empty_afs_blocks = 1 })
unfolding extract_bitmap scan_bytes handed_over zeros bit_at
extract_bitmap_run = refl
