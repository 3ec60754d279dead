-- ===== src/Fat32/Clusters.antt =====
-- The free list that `fat_map` of src/modules/dm_afs_fat32.c makes, and where its blocks lie on the
-- device.
use native.Mathlib.Decide.{dec_lt}
use artifice.Base.{
  ltb, ◌^◌, ℕ, zero, suc, ◌+◌, ◌*◌, ◌≤◌, ◌<◌, ◌≡◌, refl, ap, arith, inl, inr, Bool, true, false,
  Bool-cases, leb, ◌==◌, done, List, [], ◌∷◌, length, le32_at, Among,
}
use artifice.Kernel.{Device}
use artifice.Metadata.Search.Laws.{Increasing}
use artifice.Fat32.{FatVolume}
use artifice.Fat32.Table.{
  fat_entry, listed, scan, with_clusters, data_start_off, fat_size_bytes, page_number, fat_data,
  fat_map,
}

-- The list holds the clusters from `i` up to `n` whose FAT entry is 0, in ascending order.
pub record Lists (fat : List ℕ) (i n : ℕ) (xs : List ℕ) : Type 0 where
  pub ascending : Increasing i xs
  pub few : i + length xs ≤ n
  pub sound : (c : ℕ) → Among c xs → (i ≤ c) × (c < n) × (le32_at fat (4 * c) ≡ 0)
  pub complete : (c : ℕ) → i ≤ c → c < n → le32_at fat (4 * c) ≡ 0 → Among c xs

Increasing-weaken : (i : ℕ) (xs : List ℕ) → Increasing (suc i) xs → Increasing i xs
Increasing-weaken i [] h = h
Increasing-weaken i (x ∷ xs) h = (omega arith, h.1)

module _ (fat : List ℕ) (capacity : ℕ) where
  scan-empty :
      (rounds i count : ℕ) (xs : List ℕ)
      → leb (4 * i + 4) (length fat) ≡ true
      → (le32_at fat (4 * i) == 0) ≡ true
      → leb (4 * count + 4) capacity ≡ true
      → scan fat capacity rounds (i + 1) (count + 1) ≡ done xs
      → scan fat capacity (suc rounds) i count ≡ done (i ∷ xs)
  unfolding scan fat_entry listed
  scan-empty rounds i count xs inside free room e = rw (scan, inside, free, e, listed, room) refl

  scan-used :
      (rounds i count : ℕ) (xs : List ℕ)
      → leb (4 * i + 4) (length fat) ≡ true
      → (le32_at fat (4 * i) == 0) ≡ false
      → scan fat capacity rounds (i + 1) count ≡ done xs
      → scan fat capacity (suc rounds) i count ≡ done xs
  unfolding scan fat_entry
  scan-used rounds i count xs inside used e = rw (scan, inside, used, e) refl

  Lists-empty :
      (i n : ℕ) (xs : List ℕ)
      → i < n
      → le32_at fat (4 * i) ≡ 0
      → Lists fat (i + 1) n xs
      → Lists fat i n (i ∷ xs)
  Lists-empty i n xs h free l = record {
    ascending = (omega arith, let s : i + 1 ≡ suc i = omega arith in rw s at l.ascending);
    few = omega (arith, l.few);
    sound = λ c a. elim a [
      | inl s ↦ rw s (omega arith, h, free)
      | inr a' ↦ let (lo, hi, z) = l.sound c a' in (omega arith, hi, z)
    ];
    complete = λ c lo hi z. elim (dec_lt i c) [
      | yes p ↦ inr (l.complete c (omega arith) hi z)
      | no p ↦ inl (omega arith)
    ];
  }

  Lists-used :
      (i n : ℕ) (xs : List ℕ)
      → ¬ (le32_at fat (4 * i) ≡ 0)
      → Lists fat (i + 1) n xs
      → Lists fat i n xs
  Lists-used i n xs used l = record {
    ascending = Increasing-weaken i xs (let s : i + 1 ≡ suc i = omega arith in rw s at l.ascending);
    few = omega (arith, l.few);
    sound = λ c a. let (lo, hi, z) = l.sound c a in (omega arith, hi, z);
    complete = λ c lo hi z. elim (dec_lt i c) [
      | yes p ↦ l.complete c (omega arith) hi z
      | no p ↦ let s : c ≡ i = omega arith in absurd (used (rw s at z))
    ];
  }

  scan_lem :
      (rounds i count n : ℕ)
      → i + rounds ≡ n
      → 4 * n ≤ length fat
      → 4 * (count + rounds) ≤ capacity
      → (xs : List ℕ) × (scan fat capacity rounds i count ≡ done xs) × Lists fat i n xs
  unfolding scan
  scan_lem zero i count n e h k = (
    [],
    refl,
    record {
      ascending = tt;
      few = omega arith;
      sound = λ c a. absurd a;
      complete = λ c a b z. absurd (omega arith);
    },
  )
  scan_lem (suc rounds) i count n e h k = elim (Bool-cases (le32_at fat (4 * i) == 0)) [
    | inl free ↦ empty free (scan_lem rounds (i + 1) (count + 1) n (omega arith) h (omega arith))
    | inr used ↦ taken used (scan_lem rounds (i + 1) count n (omega arith) h (omega arith))
  ]
    where
      inside : leb (4 * i + 4) (length fat) ≡ true
      inside = ground arith

      empty :
          (le32_at fat (4 * i) == 0) ≡ true
          → ((xs : List ℕ) × (scan fat capacity rounds (i + 1) (count + 1) ≡ done xs)
              × Lists fat (i + 1) n xs)
          → (xs : List ℕ) × (scan fat capacity (suc rounds) i count ≡ done xs) × Lists fat i n xs
      empty free (xs, run, l) = (
        i ∷ xs,
        scan-empty rounds i count xs inside free (ground arith) run,
        Lists-empty i n xs (omega arith) (ground arith) l,
      )

      taken :
          (le32_at fat (4 * i) == 0) ≡ false
          → ((xs : List ℕ) × (scan fat capacity rounds (i + 1) count ≡ done xs)
              × Lists fat (i + 1) n xs)
          → (xs : List ℕ) × (scan fat capacity (suc rounds) i count ≡ done xs) × Lists fat i n xs
      taken used (xs, run, l) = (
        xs,
        scan-used rounds i count xs inside used run,
        Lists-used i n xs (λ z. absurd (ground arith)) l,
      )

module _ (device : Device) where
  open device use {Disk}

  -- Where the FAT has fewer than 2 ^ 20 pages, and the FAT that was read and `empty_clusters` both have room for an entry per data cluster,
  -- `fat_map` finishes. It lists, in ascending order, exactly the indices below `num_data_clusters`
  -- whose word of the memory that was read is 0, says how many they are, and keeps the size of the volume and of its clusters.
  pub fat_map_lem :
      (has_bio : ℕ → Bool) (vol : FatVolume) (reader : List ℕ) (disk : Disk)
      → page_number vol < 2 ^ 20
      → 4 * vol.num_data_clusters ≤ length (fat_data device has_bio vol reader disk)
      → 4 * vol.num_data_clusters ≤ fat_size_bytes vol
      → (vol' : FatVolume) × (fat_map device has_bio vol reader disk ≡ done vol')
        × Lists
            (fat_data device has_bio vol reader disk)
            0
            vol.num_data_clusters
            vol'.empty_clusters
        × (vol'.num_empty_clusters ≡ length vol'.empty_clusters)
        × (vol'.data_start_off ≡ data_start_off vol)
        × (vol'.num_data_clusters ≡ vol.num_data_clusters)
        × (vol'.sec_cluster ≡ vol.sec_cluster)
  unfolding fat_map with_clusters
  fat_map_lem has_bio vol reader disk pages h k =
      let fits : ltb (page_number vol * 4096) (2 ^ 32) ≡ true = ground arith in
      let (xs, run, l) =
        scan_lem (fat_data device has_bio vol reader disk) (fat_size_bytes vol)
          vol.num_data_clusters 0 0 vol.num_data_clusters (omega arith) h (omega arith) in
      (
        record vol {
          empty_clusters = xs;
          num_empty_clusters = length xs;
          data_start_off = data_start_off vol;
        },
        rw fits (ap (with_clusters vol) run),
        l,
        refl,
        refl,
        refl,
        refl,
      )
