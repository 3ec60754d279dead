-- ===== src/Io.antt =====
-- src/dm_afs_io.c: single pages read from and written to a block device. A request that the kernel has
-- no memory for fails; the status of `submit_bio_wait` is dropped by the code, so no other error shows.
pub mod Laws
mod Tests
use artifice.Base.{
  ℕ, ◌+◌, ◌*◌, ◌/◌, ◌^◌, ◌%◌, Bool, if◌then◌else◌, Result, ok, err, enomem, einval, List,
}
use artifice.Format.{block_size, sector_size}
use artifice.Kernel.{Device}

-- `enum afs_io_type` of include/dm_afs_io.h, and any other value of it.
pub data IoType : Type 0 where
  io_read io_write io_other : IoType

-- `struct afs_io`: the sector, and the page to write or to read into. All transfers are of
-- `AFS_BLOCK_SIZE` bytes.
pub record Request : Type 0 where
  pub io_page : List ℕ
  pub io_sector : ℕ
  pub type : IoType

-- `sector_num` of `read_page` and `write_page`: the product has 32 bits, the sum with the 32-bit
-- offset has 32 bits too.
unfoldable pub page_sector : ℕ → ℕ → ℕ
page_sector block_num sector_offset =
    (block_num * block_size % 2 ^ 32 / sector_size + sector_offset) % 2 ^ 32

module _ (device : Device) where
  open device use {Disk, read, write}

  -- The `switch` of `afs_blkdev_io`, and the submission: the status, the page and the disk afterwards.
  unfoldable pub transfer : IoType → Request → Disk → Result (Unit {0}) × List ℕ × Disk
  transfer io_read request disk = (ok tt, read request.io_sector disk, disk)
  transfer io_write request disk =
      (ok tt, request.io_page, write request.io_sector request.io_page disk)
  transfer io_other request disk = (err einval, request.io_page, disk)

  -- `afs_blkdev_io`; the flag says whether `bio_alloc` gives memory.
  unfoldable pub afs_blkdev_io : Bool → Request → Disk → Result (Unit {0}) × List ℕ × Disk
  unfolding transfer
  afs_blkdev_io has_bio request disk =
      if has_bio then transfer request.type request disk else (err enomem, request.io_page, disk)

  -- `read_page`: the status, and the page afterwards. A page that is not aligned is read through one
  -- that is, with the same result.
  unfoldable pub read_page : Bool → List ℕ → ℕ → ℕ → Disk → Result (Unit {0}) × List ℕ
  unfolding afs_blkdev_io page_sector
  read_page has_bio page block_num sector_offset disk =
      let (ret, after, _) =
        afs_blkdev_io has_bio
          (record {
            io_page = page;
            io_sector = page_sector block_num sector_offset;
            type = io_read;
          })
          disk in
      (ret, after)

  -- `write_page`: the status, and the disk afterwards.
  unfoldable pub write_page : Bool → List ℕ → ℕ → ℕ → Disk → Result (Unit {0}) × Disk
  unfolding afs_blkdev_io page_sector
  write_page has_bio page block_num sector_offset disk =
      let (ret, _, after) =
        afs_blkdev_io has_bio
          (record {
            io_page = page;
            io_sector = page_sector block_num sector_offset;
            type = io_write;
          })
          disk in
      (ret, after)
