-- ===== src/Ntfs/Boot/Laws.antt =====
-- What the boot sector means for the reads of src/modules/dm_afs_ntfs.c.
use artifice.Base.{
  ℕ, ◌*◌, ◌/◌, ◌%◌, ◌^◌, ◌≤◌, ◌<◌, ◌≡◌, refl, ap, ◌∙◌, arith, Bool, true, false, ◌&&◌, ltb, ◌==◌,
  Bool-cases, inl, inr, List, byte_at, le16_at, Option, some, Outcome, fault, done, suc, memcpy, ok,
  ◌+◌, [],
}
use native.Mathlib.Nat.{mod-eq_of_lt, mul-le-mul_left, div-eq_of_lt, div_self, zero-mul}
use artifice.Io.{read_page}
use artifice.Kernel.{Device}
use artifice.Ntfs.Boot.{
  read_ntfs_cluster, cluster_from, NtfsVolume, is_ntfs_magic_value, le64_at, record_size, volume_of,
  read_boot_sector, read_mft_records,
}

-- The volume, if there is one, is as `P` says.
abbrev pub Holds : (NtfsVolume → Type 0) → Outcome (Option NtfsVolume) → Type 0
Holds P (done (some vol)) = P vol
Holds P _ = Unit {0}

-- What a boot sector that is taken settles of the volume.
pub record Accepted (clusters_per_record : ℕ) (vol : NtfsVolume) : Type 0 where
  pub sized : vol.bytes_per_cluster ≡ vol.bytes_per_sector * vol.sectors_per_cluster
  pub whole_blocks : vol.bytes_per_cluster % 4096 ≡ 0
  pub some_bytes : 0 < clusters_per_record → 0 < vol.bytes_per_cluster
  pub records : 2 ≤ clusters_per_record → vol.mft_records_per_cluster ≡ 0
  pub one_record : clusters_per_record ≡ 1 → vol.mft_records_per_cluster ≡ 1
  pub blocks : vol.afs_blocks_per_cluster ≡ vol.bytes_per_cluster / 4096 % 2 ^ 8
  pub total : vol.num_afs_blocks ≡ vol.cluster_count * vol.afs_blocks_per_cluster % 2 ^ 32

record_size_lem :
    (bytes clusters : ℕ)
    → bytes < 2 ^ 24
    → clusters < 2 ^ 8
    → 0 < clusters
    → record_size bytes clusters ≡ bytes * clusters
unfolding record_size
record_size_lem bytes clusters h k l =
    let t : ltb 0 clusters ≡ true = ground arith in
    let m : bytes * clusters < 2 ^ 32 =
      let q = mul-le-mul_left {m = clusters} {n = 256} bytes (omega arith) in omega arith in
    rw t (mod-eq_of_lt m)

product_lem : (a b : ℕ) → a < 2 ^ 16 → b < 2 ^ 8 → a * b < 2 ^ 24
product_lem a b h k = let q = mul-le-mul_left {m = b} {n = 256} a (omega arith) in omega arith

many_clusters : (bytes clusters : ℕ) → 0 < bytes → 2 ≤ clusters → bytes / (bytes * clusters) ≡ 0
many_clusters bytes clusters h k =
    let q = mul-le-mul_left {m = 2} {n = clusters} bytes k in div-eq_of_lt (omega arith)

module _ (bytes_per_sector sectors_per_cluster sector_count mft mirror clusters : ℕ)
    (h : bytes_per_sector < 2 ^ 16) (k : sectors_per_cluster < 2 ^ 8) (l : clusters < 2 ^ 8) where
  abbrev bytes_per_cluster : ℕ
  bytes_per_cluster = bytes_per_sector * sectors_per_cluster

  some_record :
      0 < clusters → (record_size bytes_per_cluster clusters == 0) ≡ false → 0 < bytes_per_cluster
  some_record c r =
      let e =
        record_size_lem bytes_per_cluster clusters
          (product_lem bytes_per_sector sectors_per_cluster h k) l c in
      elim (Bool-cases (bytes_per_cluster == 0)) [
        | inl z ↦
            let z' : bytes_per_cluster ≡ 0 = ground arith in
            let q : bytes_per_cluster * clusters ≡ 0 =
              ap (λ b. b * clusters) z' ∙ zero-mul clusters in
            absurd (ground (arith, e, q))
        | inr p ↦ ground arith
      ]

  volume_of-Accepted :
      Holds
        (Accepted clusters)
        (volume_of bytes_per_sector sectors_per_cluster sector_count mft mirror clusters)
  unfolding volume_of
  volume_of-Accepted = elim (Bool-cases (sectors_per_cluster == 0)) [
    | inl z ↦ rw z tt
    | inr some_sectors ↦ elim (Bool-cases (ltb 0 (bytes_per_cluster % 4096))) [
      | inl part ↦ rw (some_sectors, part) tt
      | inr whole ↦ elim (Bool-cases (record_size bytes_per_cluster clusters == 0)) [
        | inl z ↦ rw (some_sectors, whole, z) tt
        | inr r ↦
            rw (some_sectors, whole, r)
              (record {
                sized = refl;
                whole_blocks = ground arith;
                some_bytes = λ c. some_record c r;
                records = λ c.
                    let e =
                      record_size_lem bytes_per_cluster clusters
                        (product_lem bytes_per_sector sectors_per_cluster h k) l (omega arith) in
                    rw e (
                      rw (many_clusters bytes_per_cluster clusters (some_record (omega arith) r) c)
                        refl);
                one_record = λ c.
                    let e =
                      record_size_lem bytes_per_cluster clusters
                        (product_lem bytes_per_sector sectors_per_cluster h k) l (omega arith) in
                    let same : bytes_per_cluster * clusters ≡ bytes_per_cluster =
                      rw c (omega arith) in
                    rw e (rw same (rw (div_self (some_record (omega arith) r)) refl));
                blocks = refl;
                total = refl;
              })
      ]
    ]
  ]

read_boot_sector-Accepted :
    (sector : List ℕ)
    → ((i : ℕ) → byte_at sector i < 2 ^ 8)
    → Holds (Accepted (byte_at sector 64)) (read_boot_sector sector)
unfolding read_boot_sector le16_at
read_boot_sector-Accepted sector small =
    elim (Bool-cases (
      is_ntfs_magic_value sector
      && (byte_at sector 16 == 0)
      && (le16_at sector 17 == 0)
      && (le16_at sector 19 == 0)
      && (le16_at sector 22 == 0))) [
        | inl fine ↦ rw fine (
            volume_of-Accepted (le16_at sector 11) (byte_at sector 13) (le64_at sector 40)
              (le64_at sector 48) (le64_at sector 56) (byte_at sector 64)
              (omega (arith, small 11, small 12)) (small 13) (small 64))
        | inr other ↦ rw other tt
      ]

-- A boot sector of bytes that is taken: clusters consist of whole blocks; and where the field
-- `clusters_per_record` is 2 or more, as it is for all volumes that store it as a negative number
-- because their records are smaller than a cluster, the reading of any record of the master file
-- table divides by zero. It is 1 record for each cluster where the field is 1.
pub read_boot_sector-read_mft_records :
    (device : Device) (has_bio : ℕ → Bool) (sector : List ℕ) (vol : NtfsVolume)
    → ((i : ℕ) → byte_at sector i < 2 ^ 8)
    → read_boot_sector sector ≡ done (some vol)
    → (vol.bytes_per_cluster ≡ vol.bytes_per_sector * vol.sectors_per_cluster)
      × (vol.bytes_per_cluster % 4096 ≡ 0)
      × (2 ≤ byte_at sector 64
          → (fuel : ℕ) (memory : List ℕ) (number : ℕ) (disk : device.Disk)
          → read_mft_records device has_bio fuel memory vol number disk ≡ fault)
      × (byte_at sector 64 ≡ 1 → vol.mft_records_per_cluster ≡ 1)
unfolding read_boot_sector read_mft_records
read_boot_sector-read_mft_records device has_bio sector vol small taken =
    let a : Accepted (byte_at sector 64) vol =
      rw taken at (read_boot_sector-Accepted sector small) in
    (
      a.sized,
      a.whole_blocks,
      λ c fuel memory number disk.
          let z : (vol.mft_records_per_cluster == 0) ≡ true =
            let e = a.records c in ground (arith, e) in
          rw z refl,
      a.one_record,
    )

-- For a cluster of one block or more, with memory for the request, `read_ntfs_cluster` ends after one
-- round and reads only the first block of the cluster, whatever their number is.
pub read_ntfs_cluster_lem :
    (device : Device) (has_bio : ℕ → Bool) (fuel : ℕ) (memory : List ℕ) (vol : NtfsVolume)
    (cluster_number : ℕ) (disk : device.Disk)
    → 0 < vol.afs_blocks_per_cluster
    → vol.afs_blocks_per_cluster < 2 ^ 8
    → has_bio 0 ≡ true
    → read_ntfs_cluster device has_bio (suc (suc fuel)) memory vol cluster_number disk
      ≡ done (
        ok tt,
        memcpy memory 0
            (read_page device true []
              (cluster_number * vol.afs_blocks_per_cluster % 2 ^ 32)
              0
              disk).1,
      )
unfolding read_ntfs_cluster cluster_from read_page
read_ntfs_cluster_lem device has_bio fuel memory vol cluster_number disk some_block few bio =
    let t : ltb 0 vol.afs_blocks_per_cluster ≡ true = ground arith in
    let f : ltb 4096 vol.afs_blocks_per_cluster ≡ false = ground arith in
    let z : 0 + 4096 ≡ 4096 = omega arith in
    let b = cluster_number * vol.afs_blocks_per_cluster % 2 ^ 32 in
    let e : (b + 0) % 2 ^ 32 ≡ b = omega arith in rw (t, bio) (rw (z, f, e) (rw bio refl))
