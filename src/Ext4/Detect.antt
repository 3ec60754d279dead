-- ===== src/Ext4/Detect.antt =====
-- `afs_ext4_detect` of src/modules/dm_afs_ext4.c from the page of the super block to the free list.
use artifice.Base.{
  some, ℕ, zero, suc, ◌+◌, ◌*◌, ◌/◌, ◌%◌, ◌^◌, ◌≤◌, ◌<◌, ◌≡◌, refl, ap, ◌∙◌, arith, Bool, true,
  false, ◌==◌, if◌then◌else◌, leb, List, [], ◌∷◌, ◌++◌, length, length-append, length-slice, slice,
  get_or, le16_at, Outcome, fault, done, ◌⊎◌, inl, inr, Bool-cases,
}
use artifice.Allocation.{PassiveFs}
use artifice.Ext4.{
  Ext4Disk, superblock_of, has_64bit, has_sparse_super, num_groups, read_superblock, new_disk,
}
use artifice.Ext4.Descriptors.{copy_descs, desc_page, full_blocks, read_group_descs}
use artifice.Ext4.Bitmap.{has_backups}
use artifice.Ext4.Powers.{HoldsBackups, has_backups_lem}
use mathlib.Core.Logic.{◌↔◌}
use artifice.Ext4.Free.{free_blocks, HaveFields, read_bitmaps_lem}
use artifice.Ext4.Groups.{afs_ext4_detect, detect_super, with_disk, with_descs, is_detected}
use artifice.Kernel.{BitOps, Device}

abbrev HaveSize : ℕ → List (List ℕ) → Type 0
HaveSize size [] = Unit {0}
HaveSize size (gd ∷ gds) = (length gd ≡ size) × HaveSize size gds

HaveSize-append :
    (size : ℕ) (xs ys : List (List ℕ))
    → HaveSize size xs
    → HaveSize size ys
    → HaveSize size (xs ++ ys)
HaveSize-append size [] ys h k = k
HaveSize-append size (x ∷ xs) ys h k = (h.0, HaveSize-append size xs ys h.1 k)

HaveSize-get_or :
    (size : ℕ) (xs : List (List ℕ)) (i : ℕ)
    → HaveSize size xs
    → i < length xs
    → length (get_or xs i []) ≡ size
HaveSize-get_or size [] i h l = absurd (omega arith)
HaveSize-get_or size (x ∷ xs) zero h l = h.0
HaveSize-get_or size (x ∷ xs) (suc i) h l = HaveSize-get_or size xs i h.1 (omega arith)

-- `n` descriptors of 32 bytes.
abbrev Reads : ℕ → Outcome (List (List ℕ)) → Type 0
Reads n o = (gds : List (List ℕ)) × (o ≡ done gds) × (length gds ≡ n) × HaveSize 32 gds

copy_descs_lem :
    (buf : List ℕ) (k j : ℕ)
    → length buf ≡ 4096
    → 32 * (j + k) ≤ 4096
    → Reads k (copy_descs buf 32 k j)
unfolding copy_descs
copy_descs_lem buf zero j l h = ([], refl, refl, tt)
copy_descs_lem buf (suc k) j l h =
    let (gds, e, n, sized) = copy_descs_lem buf k (suc j) l (omega arith) in
    let f : leb (32 * j + 32) 4096 ≡ true = ground arith in
    (
      slice buf (32 * j) 32 ∷ gds,
      rw (f, e) refl,
      ap suc n,
      (length-slice buf (32 * j) 32 (omega arith), sized),
    )

rounds_suc :
    (per_blk rem rounds a b : ℕ)
    → a ≡ per_blk
    → b ≡ rounds * per_blk + rem
    → a + b ≡ suc rounds * per_blk + rem
rounds_suc per_blk rem rounds a b e f = grind arith

blk_sz_cases :
    (s : ℕ) → s ≤ 2 → (2 ^ (10 + s) ≡ 1024) ⊎ (2 ^ (10 + s) ≡ 2048) ⊎ (2 ^ (10 + s) ≡ 4096)
blk_sz_cases zero h = inl refl
blk_sz_cases (suc zero) h = inr (inl refl)
blk_sz_cases (suc (suc zero)) h = inr (inr refl)
blk_sz_cases (suc (suc (suc s))) h = absurd (omega arith)

num_lem :
    (num size : ℕ)
    → (size ≡ 1024) ⊎ (size ≡ 2048) ⊎ (size ≡ 4096)
    → (num * 32 / size) * (size / 32) + num * 32 % size / 32 ≡ num
num_lem num size (inl b) = rw b (omega arith)
num_lem num size (inr (inl b)) = rw b (omega arith)
num_lem num size (inr (inr b)) = rw b (omega arith)

small_lem :
    (num size : ℕ)
    → (size ≡ 1024) ⊎ (size ≡ 2048) ⊎ (size ≡ 4096)
    → (size / 32 ≤ 128) × (num * 32 % size / 32 ≤ 128)
small_lem num size (inl b) = (rw b (omega arith), rw b (omega arith))
small_lem num size (inr (inl b)) = (rw b (omega arith), rw b (omega arith))
small_lem num size (inr (inr b)) = (rw b (omega arith), rw b (omega arith))

module _ (device : Device) (has_bio : ℕ → Bool) (disk : device.Disk)
    (whole : (i : ℕ) → length (desc_page device has_bio i disk) ≡ 4096) where
  full_blocks_lem :
      (per_blk rem rounds i : ℕ)
      → per_blk ≤ 128
      → rem ≤ 128
      → Reads (rounds * per_blk + rem) (full_blocks device has_bio 32 per_blk rem rounds i disk)
  unfolding full_blocks
  full_blocks_lem per_blk rem zero i h k =
      let (gds, e, n, sized) =
        copy_descs_lem (desc_page device has_bio i disk) rem 0 (whole i) (omega arith) in
      (gds, e, n ∙ omega arith, sized)
  full_blocks_lem per_blk rem (suc rounds) i h k =
      let (gds, e, n, sized) =
        copy_descs_lem (desc_page device has_bio i disk) per_blk 0 (whole i) (omega arith) in
      let (rest, e', n', sized') = full_blocks_lem per_blk rem rounds (suc i) h k in
      (
        gds ++ rest,
        rw (e, e') refl,
        length-append gds rest ∙ rounds_suc per_blk rem rounds (length gds) (length rest) n n',
        HaveSize-append 32 gds rest sized sized',
      )

  -- The blocks of the descriptors are of 1, 2 or 4 KiB.
  read_group_descs_lem :
      (d : Ext4Disk)
      → d.grp_desc_sz ≡ 32
      → (d.blk_sz ≡ 1024) ⊎ (d.blk_sz ≡ 2048) ⊎ (d.blk_sz ≡ 4096)
      → Reads d.num_grp_descs (read_group_descs device has_bio d disk)
  unfolding read_group_descs
  read_group_descs_lem d e b =
      let (small, rest) = small_lem d.num_grp_descs d.blk_sz b in
      let (gds, found, n, sized) =
        full_blocks_lem (d.blk_sz / 32) (d.num_grp_descs * 32 % d.blk_sz / 32)
          (d.num_grp_descs * 32 / d.blk_sz) 0 small rest in
      (gds, rw (read_group_descs, e) found, n ∙ num_lem d.num_grp_descs d.blk_sz b, sized)

  module _ (ops : BitOps) where
    with_disk_lem :
        (d : Ext4Disk) (fs : PassiveFs)
        → d.grp_desc_sz ≡ 32
        → (d.blk_sz ≡ 1024) ⊎ (d.blk_sz ≡ 2048) ⊎ (d.blk_sz ≡ 4096)
        → d.blks_per_grp ≤ 32768
        → 0 < d.free_block_count
        → d.free_block_count < 2 ^ 32
        → (gd_arr : List (List ℕ)) × (read_group_descs device has_bio d disk ≡ done gd_arr)
          × (length gd_arr ≡ d.num_grp_descs)
          × (let blocks = free_blocks ops device has_bio false d gd_arr disk d.num_grp_descs 0 in
              is_detected ops device has_bio
                (with_disk ops device has_bio (true, true, true) false (done (some d)) fs disk)
              ≡ (if leb (length blocks) d.free_block_count
                  then done (true, record fs { block_list = blocks; list_len = length blocks })
                  else fault))
    unfolding with_disk with_descs is_detected
    with_disk_lem d fs e b small some_free wide =
        let (gd_arr, found, n, sized) = read_group_descs_lem d e b in
        let fields : HaveFields ops device has_bio false gd_arr =
          λ i h. let f = HaveSize-get_or 32 gd_arr i sized h in omega arith in
        let listed =
          read_bitmaps_lem ops device has_bio false d gd_arr disk small fields fs (omega arith)
            some_free wide in
        let blocks = free_blocks ops device has_bio false d gd_arr disk d.num_grp_descs 0 in
        (
          gd_arr,
          found,
          n,
          rw (found, listed)
              (elim (Bool-cases (leb (length blocks) d.free_block_count)) [
                | inl fits ↦ rw fits refl
                | inr over ↦ rw over refl
              ]),
        )

    -- `afs_ext4_detect` on a page with the magic number of a file system of 32 bits, where the module has
    -- seen no other before: its blocks have at most 4 KiB and its clusters at most 1 GiB, a group has between
    -- 1 and 32768 blocks, there is some group, and it counts some free block, fewer than 2 ^ 32. Each page of
    -- the descriptors has all of its bytes, and there is memory. Then there are as many descriptors as groups, and the file
    -- system is found, with the free blocks of all groups in their order, which are those that neither the
    -- bitmap of the group nor a backup takes, which with sparse super blocks stand in group 0 and in the
    -- groups whose number is a power of 3, 5 or 7, and whose offset is below 2 ^ 32. Where there are more of them
    -- than the super block counts, the list is overrun, which is a fault.
    pub afs_ext4_detect_lem :
        (page : List ℕ) (fs : PassiveFs)
        → let sb = superblock_of page in
          (le16_at page 1080 == 61267) ≡ true
          → has_64bit sb ≡ false
          → sb.s_log_blk_sz ≤ 2
          → sb.s_log_cluster_size ≤ 20
          → 0 < sb.s_blocks_per_group
          → sb.s_blocks_per_group ≤ 32768
          → 0 < num_groups sb
          → 0 < sb.s_free_blocks_count_lo
          → sb.s_free_blocks_count_lo < 2 ^ 32
          → (d : Ext4Disk) × (gd_arr : List (List ℕ)) × (new_disk false sb ≡ done (some d))
            × (read_group_descs device has_bio d disk ≡ done gd_arr)
            × (length gd_arr ≡ num_groups sb)
            × ((i : ℕ) → (has_backups i ≡ true) ↔ HoldsBackups i)
            × (let blocks = free_blocks ops device has_bio false d gd_arr disk (num_groups sb) 0 in
                afs_ext4_detect ops device has_bio (true, true, true) false page fs disk ≡ (
                  if leb (length blocks) sb.s_free_blocks_count_lo
                  then done (true, record fs { block_list = blocks; list_len = length blocks })
                  else fault))
    unfolding afs_ext4_detect detect_super read_superblock new_disk
    afs_ext4_detect_lem page fs magic narrow log_blk log_cluster some_block small some_group
          some_free wide =
        let sb = superblock_of page in
        let a : leb 21 sb.s_log_blk_sz ≡ false = ground arith in
        let b : leb 21 sb.s_log_cluster_size ≡ false = ground arith in
        let c : (sb.s_blocks_per_group == 0) ≡ false = ground arith in
        let d : Ext4Disk = record {
          first_data_block = sb.s_first_data_block;
          block_count = sb.s_blocks_count_lo;
          free_block_count = sb.s_free_blocks_count_lo;
          reserved_gdt_blocks = sb.s_reserved_gdt_blocks;
          blk_sz = 2 ^ (10 + sb.s_log_blk_sz);
          cluster_size = 2 ^ (10 + sb.s_log_cluster_size);
          num_grp_descs = num_groups sb;
          grp_desc_sz = 32;
          blks_per_grp = sb.s_blocks_per_group;
          is_sparse_super = has_sparse_super sb;
        } in
        let made : new_disk false sb ≡ done (some d) =
          let g : (num_groups sb == 0) ≡ false = ground arith in rw (new_disk, a, b, c, g) refl in
        let (gd_arr, found, n, listed) =
          with_disk_lem d fs refl (blk_sz_cases sb.s_log_blk_sz log_blk) small some_free wide in
        (d, gd_arr, made, found, n, has_backups_lem, rw (magic, narrow, made) listed)
