-- ===== src/Ext4/Bitmap.antt =====
-- `is_pow_n` and `read_bitmap` of src/modules/dm_afs_ext4.c: which blocks of a group are in use.
use artifice.Base.{
  ℕ, zero, suc, ◌+◌, ◌*◌, ◌/◌, ◌%◌, ◌^◌, Bool, false, ◌&&◌, ◌||◌, if◌then◌else◌, leb, ltb, ◌==◌,
  List, length, byte_at, le32_at, replicate, Option, Outcome, fault, pending, done,
}
use artifice.BitVector.{BitVector, set}
use artifice.Ext4.{Ext4Disk}
use artifice.Format.{block_size}
use artifice.Io.{read_page}
use artifice.Kernel.{BitOps, Device}

-- `is_pow_n`, its loop on fuel: each round divides by `n`.
unfoldable pub divided : ℕ → ℕ → ℕ → ℕ
divided zero num n = num
divided (suc fuel) num n = let rest = divided fuel (num / n) n in if num % n == 0 then rest else num

unfoldable pub is_pow_n : ℕ → ℕ → Bool
unfolding divided
is_pow_n num n = if num == 0 then false else divided num num n == 1

-- `buf[i / 8] & (1 << (i % 8))`
unfoldable pub is_used : List ℕ → ℕ → Bool
is_used buf i = byte_at buf (i / 8) / 2 ^ (i % 8) % 2 == 1

unfoldable pub has_backups : ℕ → Bool
unfolding is_pow_n
has_backups grp_num =
    (grp_num == 0) || is_pow_n grp_num 3 || is_pow_n grp_num 5 || is_pow_n grp_num 7

-- The blocks that the group descriptors fill, the last one perhaps in part.
unfoldable pub descriptor_blocks : Ext4Disk → ℕ
descriptor_blocks d =
    let bytes = d.num_grp_descs * d.grp_desc_sz in
    let rem_gds = bytes % d.blk_sz / d.grp_desc_sz in
    if rem_gds == 0 then bytes / d.blk_sz else bytes / d.blk_sz + 1

-- `block_bmap`; the fields that `lo_hi_64` puts together are read as far as the descriptor goes.
unfoldable pub block_bitmap : Bool → List ℕ → ℕ
block_bitmap is_64bit gd = if is_64bit then le32_at gd 32 * 2 ^ 32 + le32_at gd 0 else le32_at gd 0

module _ (device : Device) (has_bio : ℕ → Bool) where
  open device use {Disk}

  -- The page of the bitmap of a group; the sector has 32 bits, and the status is not looked at.
  unfoldable pub bitmap_page : Bool → List ℕ → ℕ → Disk → List ℕ
  unfolding block_bitmap
  bitmap_page is_64bit gd grp_num disk =
      (read_page device (has_bio grp_num) (replicate block_size 0) 0
        (block_bitmap is_64bit gd * 8 % 2 ^ 32) disk).1

module _ (ops : BitOps) where
  open ops use {Memory}

  -- The loop that sets the bits of the bitmap, `k` more from bit `i` on. A bit behind the buffer is a fault.
  unfoldable pub mark_used :
      List ℕ → ℕ → ℕ → Option (BitVector Memory) → Outcome (Option (BitVector Memory))
  unfolding is_used
  mark_used buf zero i bvec = done bvec
  mark_used buf (suc k) i bvec =
      let used = mark_used buf k (suc i) (set ops bvec i).1 in
      let unused = mark_used buf k (suc i) bvec in
      if leb block_size (i / 8) then fault else if is_used buf i then used else unused

  -- The loops that set bits from `j` on, `k` of them; the status of each call is not looked at.
  unfoldable pub set_range : ℕ → ℕ → Option (BitVector Memory) → Option (BitVector Memory)
  set_range zero j bvec = bvec
  set_range (suc k) j bvec = set_range k (suc j) (set ops bvec j).1

  -- The backup of the super block, those of the group descriptors, and the blocks reserved for more.
  unfoldable pub mark_backups : Ext4Disk → ℕ → Option (BitVector Memory) → Option (BitVector Memory)
  unfolding set_range has_backups descriptor_blocks
  mark_backups d grp_num bvec =
      if d.is_sparse_super && has_backups grp_num
      then set_range d.reserved_gdt_blocks (1 + descriptor_blocks d)
          (set_range (descriptor_blocks d) 1 (set ops bvec 0).1)
      else bvec

  unfoldable pub then_backups :
      Ext4Disk → ℕ → Outcome (Option (BitVector Memory)) → Outcome (Option (BitVector Memory))
  unfolding mark_backups
  then_backups d grp_num (done bvec) = done (mark_backups d grp_num bvec)
  then_backups d grp_num fault = fault
  then_backups d grp_num pending = pending

  module _ (device : Device) (has_bio : ℕ → Bool) where
    open device use {Disk}

    -- `read_bitmap`: the vector. The fields of a descriptor that is too short are a fault.
    unfoldable pub read_bitmap :
        Bool
        → Ext4Disk
        → List ℕ
        → ℕ
        → Option (BitVector Memory)
        → Disk
        → Outcome (Option (BitVector Memory))
    unfolding bitmap_page mark_used then_backups
    read_bitmap is_64bit d gd grp_num bvec disk =
        if ltb (length gd) (if is_64bit then 36 else 4)
        then fault
        else then_backups d grp_num
            (mark_used (bitmap_page device has_bio is_64bit gd grp_num disk) d.blks_per_grp 0 bvec)
