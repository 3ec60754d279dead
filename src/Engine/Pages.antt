-- ===== src/Engine/Pages.antt =====
-- `read_pages` and `write_pages` of src/dm_afs_engine.c: the carrier blocks of a request on the device,
-- and the counting of their completions. `bio_alloc` for one page does not fail under GFP_NOIO, and there
-- is memory for the array of bios. A completion is a step of its own.
pub mod Laws
use artifice.Base.{
  ℕ, zero, suc, ◌+◌, ◌*◌, ◌-◌, ◌==◌, ◌^◌, ◌%◌, Bool, if◌then◌else◌, List, [], ◌∷◌, Result, ok, err,
  einval,
}
use artifice.Format.{sectors_per_block}
use artifice.Kernel.{Device}
use artifice.Allocation.{PassiveFs}

-- `sector_num` of both: the product and the sum have 32 bits.
unfoldable pub sector_num : PassiveFs → ℕ → ℕ
sector_num fs block_num =
    (block_num * sectors_per_block % 2 ^ 32 + fs.data_start_off % 2 ^ 32) % 2 ^ 32

-- `atomic_dec_and_test(&req->bios_pending)` of the two `endio` functions: what is left, and whether this
-- completion is the one that goes on with the request.
unfoldable pub dec_and_test : ℕ → ℕ × Bool
dec_and_test bios_pending = let left = (bios_pending + 2 ^ 32 - 1) % 2 ^ 32 in (left, left == 0)

module _ (device : Device) (fs : PassiveFs) (aligned : ℕ → Bool) where
  open device use {Disk, read, write}

  -- The loop of `write_pages` from page `i` on: the pages of the carriers go to their blocks.
  unfoldable pub write_pages : ℕ → List ℕ → List (List ℕ) → Disk → Result (Unit {0}) × Disk
  unfolding sector_num
  write_pages i [] carrier_blocks disk = (ok tt, disk)
  write_pages i (block_num ∷ block_nums) [] disk = (ok tt, disk)
  write_pages i (block_num ∷ block_nums) (page ∷ carrier_blocks) disk =
      let rest =
        write_pages (suc i) block_nums carrier_blocks (write (sector_num fs block_num) page disk) in
      if aligned i then rest else (err einval, disk)

  -- A page in front of those that the loop reads.
  unfoldable pub before_pages :
      List ℕ → Result (Unit {0}) × List (List ℕ) → Result (Unit {0}) × List (List ℕ)
  before_pages page (ret, pages) = (ret, page ∷ pages)

  -- The loop of `read_pages` from page `i` on: what the carriers hold when the reads are complete.
  unfoldable pub read_pages : ℕ → List ℕ → Disk → Result (Unit {0}) × List (List ℕ)
  unfolding sector_num before_pages
  read_pages i [] disk = (ok tt, [])
  read_pages i (block_num ∷ block_nums) disk =
      let rest = read_pages (suc i) block_nums disk in
      if aligned i
      then before_pages (read (sector_num fs block_num) disk) rest
      else (err einval, [])

-- As many completions in a row: for each, whether it goes on with the request.
unfoldable pub completions : ℕ → ℕ → List Bool
unfolding dec_and_test
completions zero bios_pending = []
completions (suc k) bios_pending =
    let (left, last) = dec_and_test bios_pending in last ∷ completions k left
