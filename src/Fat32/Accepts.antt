-- ===== src/Fat32/Accepts.antt =====
-- What a boot sector that `read_boot_sector` of src/modules/dm_afs_fat32.c accepts says of the volume.
use artifice.Base.{
  ℕ, ◌*◌, ◌/◌, ◌^◌, ◌%◌, ◌≤◌, ◌≡◌, ◌≢◌, ◌⊎◌, refl, arith, inl, inr, Bool, true, false, Bool-cases,
  ◌&&◌, ◌||◌, not, leb, ltb, ◌==◌, Option, none, some, if◌then◌else◌, List, take,
}
use artifice.Fat32.{
  FatVolume, FatBootSector, Fat32Ebpb, bsr, boot_sector_of, fat_read_dos_2_0_bpb,
  fat_read_dos_3_31_bpb, fat_read_nonfat32_ebpb, fat32_fields, fat_read_fat32_ebpb,
  num_data_sectors, count_clusters, read_fat32_part, read_boot_sector,
}

-- The volume, if there is one, is as `P` says.
abbrev pub Holds : (FatVolume → Type 0) → Option FatVolume → Type 0
Holds P none = Unit {0}
Holds P (some vol) = P vol

-- What the first part of the parameter block settles: the size of a sector and its logarithm, the
-- sectors of a cluster, and the number of tables.
pub record Sized (is_power_of_2 : ℕ → Bool) (bytes_sector sector_order sec_cluster tables : ℕ)
    : Type 0 where
  pub bytes : is_power_of_2 bytes_sector ≡ true
  pub order : sector_order ≡ bsr bytes_sector
  pub order_least : 5 ≤ sector_order
  pub order_most : sector_order ≤ 12
  pub cluster : is_power_of_2 sec_cluster ≡ true
  pub cluster_most : bsr sec_cluster ≤ 7
  pub one_or_two : (tables ≡ 1) ⊎ (tables ≡ 2)

-- What the whole boot sector settles.
pub record Accepted (is_power_of_2 : ℕ → Bool) (vol : FatVolume) : Type 0 where
  pub sized : Sized is_power_of_2 vol.bytes_sector vol.sector_order vol.sec_cluster vol.tables
  pub version_zero : vol.version ≡ 0
  pub root : vol.root_dir_start ≢ 0
  pub fs_info : (vol.fs_info_sec ≡ 0) ⊎ (9 ≤ vol.sector_order)
  pub clusters : vol.num_data_clusters ≡ num_data_sectors vol / vol.sec_cluster

module _ (is_power_of_2 : ℕ → Bool) where
  abbrev IsSized : FatVolume → Type 0
  IsSized vol = Sized is_power_of_2 vol.bytes_sector vol.sector_order vol.sec_cluster vol.tables

  fat_read_dos_2_0_bpb-Sized :
      (vol : FatVolume) (boot_sec : FatBootSector)
      → Holds IsSized (fat_read_dos_2_0_bpb is_power_of_2 vol boot_sec)
  unfolding fat_read_dos_2_0_bpb
  fat_read_dos_2_0_bpb-Sized vol boot_sec =
      elim (Bool-cases (
        is_power_of_2 boot_sec.bytes_sec
        && leb 5 (bsr boot_sec.bytes_sec)
        && leb (bsr boot_sec.bytes_sec) 12)) [
          | inr bad ↦ rw bad tt
          | inl size ↦
              elim (Bool-cases
                (is_power_of_2 boot_sec.sec_cluster && leb (bsr boot_sec.sec_cluster) 7)) [
                  | inr bad ↦ rw (size, bad) tt
                  | inl cluster ↦
                      elim (Bool-cases (boot_sec.num_tables == 1 || boot_sec.num_tables == 2)) [
                        | inr bad ↦ rw (size, cluster, bad) tt
                        | inl tables ↦
                            rw (size, cluster, tables)
                              (record {
                                bytes = ground arith;
                                order = refl;
                                order_least = ground arith;
                                order_most = ground arith;
                                cluster = ground arith;
                                cluster_most = ground arith;
                                one_or_two = ground arith;
                              })
                      ]
                ]
        ]

  -- What `fat_read_fat32_ebpb` adds.
  abbrev IsVersioned : FatVolume → Type 0
  IsVersioned vol =
      IsSized vol
      × (vol.version ≡ 0)
      × (vol.root_dir_start ≢ 0)
      × ((vol.fs_info_sec ≡ 0) ⊎ (9 ≤ vol.sector_order))

  fat32_fields-Versioned :
      (vol : FatVolume) (ebpb : Fat32Ebpb) → IsSized vol → Holds IsVersioned (fat32_fields vol ebpb)
  unfolding fat32_fields
  fat32_fields-Versioned vol ebpb s = elim (Bool-cases (ebpb.version == 0)) [
    | inr bad ↦ rw bad tt
    | inl version ↦ elim (Bool-cases (ebpb.root_start_clust == 0)) [
      | inl bad ↦ rw (version, bad) tt
      | inr root ↦ elim (Bool-cases (not (fs_info_sec == 0) && ltb vol.sector_order 9)) [
        | inl bad ↦ rw (version, root, bad) tt
        | inr info ↦
            rw (version, root, info) (s, ground arith, ground arith, informed fs_info_sec info)
      ]
    ]
  ]
    where
      fs_info_sec : ℕ
      fs_info_sec = if ebpb.fs_info_sec == 0xffff then 0 else ebpb.fs_info_sec

      informed :
          (sec : ℕ)
          → (not (sec == 0) && ltb vol.sector_order 9) ≡ false
          → (sec ≡ 0) ⊎ (9 ≤ vol.sector_order)
      informed sec h = ground arith

  fat_read_fat32_ebpb-Versioned :
      (vol : FatVolume) (ebpb : Fat32Ebpb)
      → IsSized vol
      → Holds IsVersioned (fat_read_fat32_ebpb vol ebpb)
  unfolding fat_read_fat32_ebpb
  fat_read_fat32_ebpb-Versioned vol ebpb s = elim (Bool-cases (ebpb.sec_fat == 0)) [
    | inl old ↦ rw old (fat32_fields-Versioned vol ebpb s)
    | inr new ↦
        elim (Bool-cases
          (ebpb.sec_fat * 2 ^ vol.sector_order % 2 ^ 64 / 2 ^ vol.sector_order == ebpb.sec_fat)) [
            | inl fits ↦
                rw (new, fits)
                  (fat32_fields-Versioned (record vol { sec_fat = ebpb.sec_fat }) ebpb s)
            | inr wraps ↦ rw (new, wraps) tt
          ]
  ]

  read_fat32_part-Accepted :
      (vol : FatVolume) (boot_sec : FatBootSector)
      → IsSized vol
      → Holds (Accepted is_power_of_2) (read_fat32_part vol boot_sec)
  unfolding read_fat32_part count_clusters num_data_sectors fat_read_nonfat32_ebpb
  read_fat32_part-Accepted vol boot_sec s =
      step (fat_read_fat32_ebpb vol boot_sec.fat32_ebpb)
        (fat_read_fat32_ebpb-Versioned vol boot_sec.fat32_ebpb s)
    where
      step :
          (r : Option FatVolume)
          → Holds IsVersioned r
          → Holds (Accepted is_power_of_2) (elim r [
            | none ↦ none
            | some vol' ↦ some (count_clusters (fat_read_nonfat32_ebpb vol' boot_sec.nonfat32_ebpb))
          ])
      step none h = tt
      step (some v) (z, version, root, info) = record {
        sized = z;
        version_zero = version;
        root = root;
        fs_info = info;
        clusters = refl;
      }

  read_boot_sector-Holds :
      (vol : FatVolume) (bytes : List ℕ)
      → Holds (Accepted is_power_of_2) (read_boot_sector is_power_of_2 vol bytes)
  unfolding read_boot_sector fat_read_dos_3_31_bpb
  read_boot_sector-Holds vol bytes =
      let boot_sec = boot_sector_of (take 512 bytes) in
      let named : FatVolume = record vol { oem_name = boot_sec.oem_name } in
      step (fat_read_dos_2_0_bpb is_power_of_2 named boot_sec)
        (fat_read_dos_2_0_bpb-Sized named boot_sec)
    where
      step :
          (r : Option FatVolume)
          → Holds IsSized r
          → Holds (Accepted is_power_of_2) (elim r [
            | none ↦ none
            | some vol' ↦
                read_fat32_part
                  (fat_read_dos_3_31_bpb vol' (boot_sector_of (take 512 bytes)))
                  (boot_sector_of (take 512 bytes))
          ])
      step none h = tt
      step (some v) z = read_fat32_part-Accepted _ _ z

  -- A boot sector that `read_boot_sector` accepts has sectors of 32 to 4096 bytes and clusters of at
  -- most 128 sectors, both powers of two by the kernel's test, one or two tables, version 0, a root
  -- directory, no information sector unless sectors have 512 bytes or more; and the data clusters
  -- counted are the data sectors over the sectors of a cluster.
  pub read_boot_sector-Accepted :
      (vol vol' : FatVolume) (bytes : List ℕ)
      → read_boot_sector is_power_of_2 vol bytes ≡ some vol'
      → Accepted is_power_of_2 vol'
  read_boot_sector-Accepted vol vol' bytes e = rw e at (read_boot_sector-Holds vol bytes)
