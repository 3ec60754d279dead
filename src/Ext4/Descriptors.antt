-- ===== src/Ext4/Descriptors.antt =====
-- `read_group_descs` of src/modules/dm_afs_ext4.c: the group descriptors, as their bytes. Each round reads
-- a page, eight sectors behind the one before; its status is not looked at. A descriptor that reaches
-- behind the page is a fault. The addresses in the array rise, so that it is the list of what is read.
use artifice.Base.{
  ℕ, zero, suc, ◌+◌, ◌*◌, ◌/◌, ◌%◌, ◌^◌, Bool, if◌then◌else◌, leb, ◌==◌, List, [], ◌∷◌, ◌++◌,
  replicate, slice, Outcome, fault, pending, done,
}
use artifice.Ext4.{Ext4Disk}
use artifice.Format.{block_size}
use artifice.Io.{read_page}
use artifice.Kernel.{Device}

-- Descriptors in front of those that follow.
unfoldable pub in_front {ℓ} : {A : Type ℓ} → List A → Outcome (List A) → Outcome (List A)
in_front gds (done rest) = done (gds ++ rest)
in_front gds fault = fault
in_front gds pending = pending

unfoldable pub then_front {ℓ} :
    {A : Type ℓ} → Outcome (List A) → Outcome (List A) → Outcome (List A)
unfolding in_front
then_front (done gds) rest = in_front gds rest
then_front fault rest = fault
then_front pending rest = pending

-- Descriptors from number `j` on, `k` of them, out of the buffer.
unfoldable pub copy_descs : List ℕ → ℕ → ℕ → ℕ → Outcome (List (List ℕ))
unfolding in_front
copy_descs buf size zero j = done []
copy_descs buf size (suc k) j =
    let rest = copy_descs buf size k (suc j) in
    if leb (size * j + size) block_size
    then in_front (slice buf (size * j) size ∷ []) rest
    else fault

module _ (device : Device) (has_bio : ℕ → Bool) where
  open device use {Disk}

  -- Read number `i`, into a buffer that `memset` cleared.
  unfoldable pub desc_page : ℕ → Disk → List ℕ
  desc_page i disk =
      (read_page device (has_bio i) (replicate block_size 0) 0 (8 * suc i % 2 ^ 32) disk).1

  -- The blocks that are full of descriptors, `rounds` more from number `i` on, and then the rest.
  unfoldable pub full_blocks : ℕ → ℕ → ℕ → ℕ → ℕ → Disk → Outcome (List (List ℕ))
  unfolding copy_descs then_front desc_page
  full_blocks size per_blk rem_gds zero i disk = copy_descs (desc_page i disk) size rem_gds 0
  full_blocks size per_blk rem_gds (suc rounds) i disk =
      then_front (copy_descs (desc_page i disk) size per_blk 0)
        (full_blocks size per_blk rem_gds rounds (suc i) disk)

  -- `read_group_descs`: `gd_arr`
  unfoldable pub read_group_descs : Ext4Disk → Disk → Outcome (List (List ℕ))
  unfolding full_blocks
  read_group_descs d disk =
      let bytes = d.num_grp_descs * d.grp_desc_sz in
      if d.grp_desc_sz == 0
      then fault
      else full_blocks d.grp_desc_sz (d.blk_sz / d.grp_desc_sz) (bytes % d.blk_sz / d.grp_desc_sz)
          (bytes / d.blk_sz) 0 disk
