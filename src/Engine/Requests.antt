-- ===== src/Engine/Requests.antt =====
-- `afs_write_request`, `afs_read_request`, `afs_read_decode` and `afs_write_endio` of
-- src/dm_afs_engine.c, with the encoding that `afs_ctr` chooses, `AONT_RS`. `encode_aont_package` and
-- `decode_aont_package` of src/lib/aont.c are a parameter. So is `cityhash32_to_16`. The
-- completion of the last bio is a step of its own, as `completions` of Engine/Pages.antt says.
pub mod Laws
pub mod Written
pub mod Ending
pub mod ReadBack
pub mod Rebuilt
use artifice.Base.{
  ℕ, zero, suc, ◌+◌, ◌*◌, ◌^◌, ◌%◌, ◌≡◌, Bool, true, false, not, ◌||◌, if◌then◌else◌, ◌==◌, List,
  [], ◌∷◌, length, replicate, memcpy, Result, ok, err, einval, eio, Outcome, fault, pending, done,
}
use artifice.Format.{Config, block_size}
use artifice.Kernel.{BitOps, Device}
use artifice.Allocation.{PassiveFs, invalid_block}
use artifice.Target.Request.{MapRequest}
use artifice.Engine.Entry.{
  afs_get_map_entry, map_entry_difference, carrier_block_ptr, checksum_of, set_checksum,
}
use artifice.Engine.Segments.{copy_in, copy_out}
use artifice.Engine.Carriers.{Store, assign_blocks, reset_entry}
use artifice.Engine.Pages.{write_pages, read_pages}
use artifice.Engine.Pages.Laws.{ArePages}

-- An encoding of a data block as a difference for the map and carrier pages, with random bytes, and its
-- inverse on the pages.
pub record Coder : Type 0 where
  pub count : ℕ
  pub encode : List ℕ → List ℕ → List ℕ × List (List ℕ)
  pub decode : List (List ℕ) → List ℕ × List ℕ
  pub length-difference :
      (random block : List ℕ) → length block ≡ 4096 → length (encode random block).0 ≡ 32
  pub length-pages :
      (random block : List ℕ)
      → length block ≡ 4096
      → (length (encode random block).1 ≡ count) × ArePages (encode random block).1
  pub decode-encode :
      (random block : List ℕ)
      → length block ≡ 4096
      → decode (encode random block).1 ≡ ((encode random block).0, block)

-- How the encoding goes: with memory and random bytes; without memory, when it returns -1, which is not
-- looked at, and leaves something in the difference and the pages; or with a page missing, which
-- `init_request` did not get.
pub data Encoding : Type 0 where
  encodes : List ℕ → Encoding
  fails : List ℕ → List (List ℕ) → Encoding
  no_page : Encoding

-- The call of `encode_aont_package`.
unfoldable pub encoding : Coder → Encoding → List ℕ → Outcome (List ℕ × List (List ℕ))
encoding coder (encodes random) data_block = done (coder.encode random data_block)
encoding coder (fails difference pages) data_block = done (difference, pages)
encoding coder no_page data_block = fault

module _ (hash16 : List ℕ → ℕ) (map_entry : ℕ) where
  -- The loop of `afs_write_endio` over the carriers from `i` on: their checksums go to the map.
  unfoldable pub store_checksums : ℕ → List (List ℕ) → List ℕ → List ℕ
  store_checksums i [] bytes = bytes
  store_checksums i (page ∷ pages) bytes =
      store_checksums (suc i) pages (set_checksum bytes map_entry i (hash16 page % 2 ^ 16))

  -- The loop of `afs_read_decode` over the carriers: whether one of them is corrupted, `rebuild_flag`.
  unfoldable pub corrupted : ℕ → List (List ℕ) → List ℕ → Bool
  corrupted i [] bytes = false
  corrupted i (page ∷ pages) bytes =
      not (checksum_of bytes map_entry i == hash16 page % 2 ^ 16) || corrupted (suc i) pages bytes

-- What `afs_write_request` leaves: the status, the block numbers, the carriers, the data block, the state
-- and the disk.
pub record Sent (Memory Disk : Type 0) : Type 0 where
  pub ret : Result (Unit {0})
  pub block_nums : List ℕ
  pub carrier_blocks : List (List ℕ)
  pub store : Store Memory
  pub disk : Disk

-- What `afs_read_request` leaves: a bio that is filled at once, or reads that were sent.
pub data Asked : Type 0 where
  answered : List (List ℕ) → Asked
  reading : List ℕ → List (List ℕ) → Asked
  refused : Result (Unit {0}) → Asked

module _ (ops : BitOps) (device : Device) (fs : PassiveFs) (config : Config) (coder : Coder)
    (hash16 : List ℕ → ℕ) (aligned : ℕ → Bool) where
  open ops use {Memory}
  open device use {Disk}

  -- The end of `afs_write_request`, once the blocks are chosen: the pages are sent, and an error of
  -- either gives the blocks up.
  unfoldable pub sent :
      ℕ
      → List (List ℕ)
      → Disk
      → Outcome (Result (Unit {0}) × List ℕ × Store Memory)
      → Outcome (Sent Memory Disk)
  sent map_entry carrier_blocks disk fault = fault
  sent map_entry carrier_blocks disk pending = pending
  sent map_entry carrier_blocks disk (done (err e, block_nums, s)) = done (record {
    ret = err e;
    block_nums = block_nums;
    carrier_blocks = carrier_blocks;
    store = reset_entry ops fs map_entry config.num_carrier_blocks 0 s;
    disk = disk;
  })
  sent map_entry carrier_blocks disk (done (ok _, block_nums, s)) =
      let (ret, disk') = write_pages device fs aligned 0 block_nums carrier_blocks disk in
      elim ret [
        | ok _ ↦ done (record {
          ret = ok tt;
          block_nums = block_nums;
          carrier_blocks = carrier_blocks;
          store = s;
          disk = disk';
        })
        | err _ ↦ done (record {
          ret = err eio;
          block_nums = block_nums;
          carrier_blocks = carrier_blocks;
          store = reset_entry ops fs map_entry config.num_carrier_blocks 0 s;
          disk = disk';
        })
      ]

  -- From the encoding of the data block on.
  unfoldable pub encoded :
      ℕ → Store Memory → Disk → List ℕ × List (List ℕ) → Outcome (Sent Memory Disk)
  unfolding sent
  encoded map_entry s disk (difference, carrier_blocks) = sent map_entry carrier_blocks disk (
      assign_blocks ops fs map_entry
        (not (carrier_block_ptr s.afs_map map_entry 0 == invalid_block)) config.num_carrier_blocks 0
        (record {
          afs_map = memcpy s.afs_map (map_entry_difference config map_entry) difference;
          vector = s.vector;
          draws = s.draws;
        }))

  unfoldable pub then_encoded :
      ℕ → Store Memory → Disk → Outcome (List ℕ × List (List ℕ)) → Outcome (Sent Memory Disk)
  unfolding encoded
  then_encoded map_entry s disk (done made) = encoded map_entry s disk made
  then_encoded map_entry s disk fault = fault
  then_encoded map_entry s disk pending = pending

  unfoldable pub copied :
      ℕ → Encoding → Store Memory → Disk → Outcome (List ℕ) → Outcome (Sent Memory Disk)
  unfolding then_encoded encoding
  copied map_entry how s disk fault = fault
  copied map_entry how s disk pending = pending
  copied map_entry how s disk (done data_block) =
      then_encoded map_entry s disk (encoding coder how data_block)

  -- `afs_write_request`: `data_block` is what the request's memory holds, `how` is how the
  -- encoding goes. The flag says whether the request is in flight.
  unfoldable pub afs_write_request :
      Bool
      → MapRequest
      → List ℕ
      → List (List ℕ)
      → Encoding
      → Store Memory
      → Disk
      → Outcome (Sent Memory Disk)
  unfolding copied
  afs_write_request in_flight req data_block bio how s disk =
      if in_flight
      then copied (afs_get_map_entry config req.block) how s disk
          (copy_in req (done data_block) 0 bio)
      else done (record {
        ret = err einval;
        block_nums = [];
        carrier_blocks = [];
        store = s;
        disk = disk;
      })

  -- The loop that copies the pointers of an entry to `req->block_nums`.
  unfoldable pub block_nums_of : List ℕ → ℕ → ℕ → ℕ → List ℕ
  block_nums_of bytes map_entry i zero = []
  block_nums_of bytes map_entry i (suc k) =
      carrier_block_ptr bytes map_entry i ∷ block_nums_of bytes map_entry (suc i) k

  unfoldable pub filled : Outcome (List (List ℕ)) → Outcome Asked
  filled (done bio) = done (answered bio)
  filled other = fault

  -- `read_pages` and the end of `afs_read_request`.
  unfoldable pub asked : List ℕ → Result (Unit {0}) × List (List ℕ) → Outcome Asked
  asked block_nums (ok _, pages) = done (reading block_nums pages)
  asked block_nums (err _, pages) = done (refused (err eio))

  -- `afs_read_request`
  unfoldable pub afs_read_request :
      Bool → MapRequest → List (List ℕ) → List ℕ → Disk → Outcome Asked
  unfolding filled asked block_nums_of
  afs_read_request in_flight req bio bytes disk =
      let map_entry = afs_get_map_entry config req.block in
      let block_nums = block_nums_of bytes map_entry 0 config.num_carrier_blocks in
      if in_flight
      then (if carrier_block_ptr bytes map_entry 0 == invalid_block
          then filled (copy_out req (replicate block_size 0) 0 bio)
          else asked block_nums (read_pages device fs aligned 0 block_nums disk))
      else done (refused (err einval))

  -- `afs_read_decode`, once the pages are there: whether blocks are to be rebuilt, the difference that
  -- it writes to the map, and the bio.
  unfoldable pub afs_read_decode :
      MapRequest → List (List ℕ) → List ℕ → List (List ℕ) → Bool × List ℕ × Outcome (List (List ℕ))
  unfolding corrupted
  afs_read_decode req bio bytes pages =
      let map_entry = afs_get_map_entry config req.block in
      let (difference, data_block) = coder.decode pages in
      (
        corrupted hash16 map_entry 0 pages bytes,
        memcpy bytes (map_entry_difference config map_entry) difference,
        copy_out req data_block 0 bio,
      )

  -- The last `afs_write_endio` of a request.
  unfoldable pub afs_write_endio : ℕ → List (List ℕ) → List ℕ → List ℕ
  unfolding store_checksums
  afs_write_endio block pages bytes =
      store_checksums hash16 (afs_get_map_entry config block) 0 pages bytes

  -- `rebuild_blocks` behind the encoding: new blocks for all carriers, and what goes to each is the data
  -- block itself, which overwrites the encoded page.
  unfoldable pub re_encoded :
      ℕ
      → List ℕ
      → Store Memory
      → Disk
      → Outcome (List ℕ × List (List ℕ))
      → Outcome (Sent Memory Disk)
  unfolding sent
  re_encoded map_entry data_block s disk (done (difference, pages)) =
      sent map_entry (replicate config.num_carrier_blocks data_block) disk (
        assign_blocks ops fs map_entry false config.num_carrier_blocks 0 (record {
          afs_map = memcpy s.afs_map (map_entry_difference config map_entry) difference;
          vector = s.vector;
          draws = s.draws;
        }))
  re_encoded map_entry data_block s disk fault = fault
  re_encoded map_entry data_block s disk pending = pending

  -- `rebuild_blocks`
  unfoldable pub rebuild_blocks :
      ℕ → List ℕ → Encoding → Store Memory → Disk → Outcome (Sent Memory Disk)
  unfolding re_encoded encoding
  rebuild_blocks block data_block how s disk =
      re_encoded (afs_get_map_entry config block) data_block s disk (encoding coder how data_block)
