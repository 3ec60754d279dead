-- ===== src/Ext4/Groups.antt =====
-- `read_bitmaps` and `afs_ext4_detect` of src/modules/dm_afs_ext4.c: the free list. A write behind
-- `block_list`, which has room for as many blocks as the super block says are free, is a fault.
use artifice.Base.{
  ℕ, zero, suc, ◌+◌, ◌*◌, ◌%◌, ◌^◌, Bool, true, false, ◌&&◌, not, if◌then◌else◌, ltb, ◌==◌, List,
  [], ◌∷◌, length, get_elem?, Option, none, some, Result, ok, err, Outcome, fault, pending, done,
}
use artifice.Allocation.{PassiveFs}
use artifice.BitVector.{BitVector, create, clear, get}
use artifice.Ext4.{Ext4Superblock, Ext4Disk, read_superblock, new_disk}
use artifice.Ext4.Bitmap.{read_bitmap}
use artifice.Ext4.Descriptors.{in_front, read_group_descs}
use artifice.Kernel.{BitOps, Device}

-- `bit_vector_get(bvec, j) == 0`
unfoldable pub is_zero : Result ℕ → Bool
is_zero (ok b) = b == 0
is_zero (err e) = false

-- `blk_grp_offset + blk_offset`: each has wrapped at 32 bits, the sum has 64.
unfoldable pub total_offset : Ext4Disk → ℕ → ℕ → ℕ
total_offset d i j = d.blks_per_grp * i % 2 ^ 32 + (j + d.first_data_block) % 2 ^ 32

-- What one bit adds to the list, whose next index is `k`.
unfoldable pub store_offset : ℕ → ℕ → ℕ → (ℕ → Outcome (List ℕ)) → Outcome (List ℕ)
unfolding in_front
store_offset capacity total k rest =
    if ltb total (2 ^ 32)
    then if ltb k capacity then in_front (total ∷ []) (rest (suc k)) else fault
    else rest k

-- The list in the file system information, if there is memory for a second one; `NULL` if not.
unfoldable pub hand_over : Bool → PassiveFs → Outcome (List ℕ) → Outcome PassiveFs
hand_over has_copy fs (done blocks) =
    let len = length blocks % 2 ^ 32 in
    done
      (record fs { block_list = if has_copy && not (len == 0) then blocks else []; list_len = len })
hand_over has_copy fs fault = fault
hand_over has_copy fs pending = pending

module _ (ops : BitOps) (device : Device) (has_bio : ℕ → Bool) where
  open ops use {Memory}
  open device use {Disk}

  -- The inner loop over the bits of a group, `n` more from `j` on, and what follows with the vector it
  -- leaves and the next index.
  unfoldable pub scan_group :
      Ext4Disk
      → ℕ
      → ℕ
      → ℕ
      → Option (BitVector Memory)
      → ℕ
      → (Option (BitVector Memory) → ℕ → Outcome (List ℕ))
      → Outcome (List ℕ)
  unfolding is_zero store_offset total_offset
  scan_group d i zero j bvec k next = next bvec k
  scan_group d i (suc n) j bvec k next =
      let rest : ℕ → Outcome (List ℕ) =
        λ k'. scan_group d i n (suc j) (clear ops bvec j).1 k' next in
      if is_zero (get ops bvec j)
      then store_offset d.free_block_count (total_offset d i j) k rest
      else rest k

  -- How a group goes on once its bitmap is read.
  unfoldable pub then_scan :
      Ext4Disk
      → ℕ
      → Outcome (Option (BitVector Memory))
      → ℕ
      → (Option (BitVector Memory) → ℕ → Outcome (List ℕ))
      → Outcome (List ℕ)
  unfolding scan_group
  then_scan d i (done bvec) k next = scan_group d i d.blks_per_grp 0 bvec k next
  then_scan d i fault k next = fault
  then_scan d i pending k next = pending

  -- The outer loop over the groups, `n` more from group `i` on.
  unfoldable pub scan_groups :
      Bool
      → Ext4Disk
      → List (List ℕ)
      → ℕ
      → ℕ
      → Option (BitVector Memory)
      → ℕ
      → Disk
      → Outcome (List ℕ)
  unfolding then_scan
  scan_groups is_64bit d gd_arr zero i bvec k disk = done []
  scan_groups is_64bit d gd_arr (suc n) i bvec k disk =
      elim (get_elem? gd_arr i) as (λ _. Outcome (List ℕ)) [
        | none ↦ fault
        | some gd ↦
            then_scan d i (read_bitmap ops device has_bio is_64bit d gd i bvec disk) k
              (λ w k'. scan_groups is_64bit d gd_arr n (suc i) w k' disk)
      ]

  -- `read_bitmaps`; the flags say whether there is memory for the vector, the list and its copy. An error
  -- leaves the file system information as it was, but for the copy.
  unfoldable pub read_bitmaps :
      Bool × Bool × Bool → Bool → Ext4Disk → List (List ℕ) → PassiveFs → Disk → Outcome PassiveFs
  unfolding scan_groups hand_over
  read_bitmaps (has_bvec, has_list, has_copy) is_64bit d gd_arr fs disk =
      if has_bvec && has_list && not (d.free_block_count == 0)
      then hand_over has_copy fs (
          scan_groups is_64bit d gd_arr d.num_grp_descs 0 (create ops true true d.blks_per_grp) 0
            disk)
      else done fs

  -- `afs_ext4_detect` behind `new_disk` and `read_group_descs`.
  unfoldable pub with_descs :
      Bool × Bool × Bool
      → Bool
      → Ext4Disk
      → Outcome (List (List ℕ))
      → PassiveFs
      → Disk
      → Outcome PassiveFs
  unfolding read_bitmaps
  with_descs memory is_64bit d (done gd_arr) fs disk = read_bitmaps memory is_64bit d gd_arr fs disk
  with_descs memory is_64bit d fault fs disk = fault
  with_descs memory is_64bit d pending fs disk = pending

  unfoldable pub with_disk :
      Bool × Bool × Bool → Bool → Outcome (Option Ext4Disk) → PassiveFs → Disk → Outcome PassiveFs
  unfolding with_descs read_group_descs
  with_disk memory is_64bit (done none) fs disk = done fs
  with_disk memory is_64bit (done (some d)) fs disk =
      with_descs memory is_64bit d (read_group_descs device has_bio d disk) fs disk
  with_disk memory is_64bit fault fs disk = fault
  with_disk memory is_64bit pending fs disk = pending

  -- `afs_ext4_detect` answers true once there is a super block, also where the list could not be made.
  unfoldable pub is_detected : Outcome PassiveFs → Outcome (Bool × PassiveFs)
  is_detected (done fs) = done (true, fs)
  is_detected fault = fault
  is_detected pending = pending

  unfoldable pub detect_super :
      Bool × Bool × Bool
      → Option Ext4Superblock × Bool
      → PassiveFs
      → Disk
      → Outcome (Bool × PassiveFs)
  unfolding with_disk is_detected new_disk
  detect_super memory (none, is_64bit) fs disk = done (false, fs)
  detect_super memory (some sb, is_64bit) fs disk =
      is_detected (with_disk memory is_64bit (new_disk is_64bit sb) fs disk)

  unfoldable pub afs_ext4_detect :
      Bool × Bool × Bool → Bool → List ℕ → PassiveFs → Disk → Outcome (Bool × PassiveFs)
  unfolding detect_super read_superblock
  afs_ext4_detect memory is_64bit page fs disk =
      detect_super memory (read_superblock is_64bit page) fs disk
