-- ===== src/Io/Laws.antt =====
-- Pages of src/dm_afs_io.c: where they lie, and reads after writes.
use artifice.Base.{ℕ, ◌+◌, ◌*◌, ◌^◌, ◌%◌, ◌<◌, ◌≡◌, ◌≢◌, refl, Bool, true, ok, List, length, arith}
use artifice.Kernel.{Device}
use artifice.Io.{page_sector, read_page, write_page}

-- Below 4 GiB a block starts eight sectors after the one before it.
pub page_sector_lem :
    (b offset : ℕ) → b < 2 ^ 20 → offset < 2 ^ 31 → page_sector b offset ≡ 8 * b + offset
unfolding page_sector
page_sector_lem b offset h k = omega arith

module _ (device : Device) where
  open device use {Disk, read-write_same, read-write_apart}

  -- Below 4 GiB, a page of 4096 bytes that is written, with memory for the requests, is what is read
  -- back from its block, and no other block reads otherwise than before.
  pub read_page-write_page :
      (b b' offset : ℕ) (page buffer : List ℕ) (disk : Disk)
      → b < 2 ^ 20
      → b' < 2 ^ 20
      → offset < 2 ^ 31
      → length page ≡ 4096
      → ((write_page device true page b offset disk).0 ≡ ok tt)
        × (read_page device true buffer b offset (write_page device true page b offset disk).1
            ≡ (ok tt, page))
        × (b ≢ b'
            → read_page device true buffer b' offset (write_page device true page b offset disk).1
              ≡ read_page device true buffer b' offset disk)
  unfolding read_page write_page page_sector
  read_page-write_page b b' offset page buffer disk h h' k len = (
    refl,
    rw (read-write_same _ page disk len) refl,
    λ ne.
        rw (read-write_apart (page_sector b offset) (page_sector b' offset) page disk (omega arith))
          refl,
  )

  -- The byte offset wraps at 32 bits: writing block `b + 2 ^ 20` is writing block `b`.
  pub write_page_wraps :
      (b offset : ℕ) (page : List ℕ) (disk : Disk) (has_bio : Bool)
      → write_page device has_bio page (b + 2 ^ 20) offset disk
        ≡ write_page device has_bio page b offset disk
  unfolding write_page page_sector
  write_page_wraps b offset page disk has_bio =
      let e : (b + 2 ^ 20) * 4096 % 2 ^ 32 ≡ b * 4096 % 2 ^ 32 = omega arith in rw e refl
