-- ===== src/Engine/Requests/ReadBack.antt =====
-- The writes and reads of a block by src/dm_afs_engine.c, one after the other.
use artifice.Base.{
  ℕ, ◌+◌, ◌≡◌, ◌≤◌, arith, refl, ap, sym, ◌∙◌, true, false, ◌==◌, List, length, take, done,
}
use artifice.Format.{Config}
use artifice.Kernel.{BitOps, Device}
use artifice.Allocation.{PassiveFs, invalid_block}
use artifice.Target.Request.{MapRequest}
use artifice.Engine.Entry.{afs_get_map_entry, carrier_block_ptr}
use artifice.Engine.Segments.Laws.{bytes_of}
use artifice.Engine.Carriers.{Store}
use artifice.Engine.Carriers.Laws.{AreEntered}
use artifice.Engine.Pages.Laws.{ArePages, AreDistinct, all_aligned, read_pages-write_pages}
use artifice.Engine.Requests.{
  Coder, Sent, reading, afs_read_request, afs_read_decode, afs_write_endio, block_nums_of, asked,
  store_checksums,
}
use artifice.Engine.Requests.Laws.{store_checksums_lem}
use artifice.Engine.Requests.Ending.{CanWrite}
use artifice.Engine.Requests.Written.{Succeeded, block_nums_of-entered}

module _ (ops : BitOps) (device : Device) (fs : PassiveFs) (config : Config) (coder : Coder)
    (hash16 : List ℕ → ℕ) where
  open ops use {Memory}
  open device use {Disk}

  -- A read of the request that was written delivers the bytes that were written.
  abbrev pub ReadsBack : MapRequest → List (List ℕ) → Sent Memory Disk → Type 0
  ReadsBack req bio r =
      let bytes =
        afs_write_endio ops device fs config coder hash16 all_aligned req.block r.carrier_blocks
          r.store.afs_map in
      (into : List (List ℕ))
      → req.request_size ≤ length (bytes_of into)
      → (after : List (List ℕ)) × (difference : List ℕ) × (afs_read_request ops device fs config
            coder hash16 all_aligned true req into bytes r.disk
          ≡ done (reading r.block_nums r.carrier_blocks))
        × (afs_read_decode ops device fs config coder hash16 all_aligned req into bytes
              r.carrier_blocks
            ≡ (false, difference, done after))
        × (take req.request_size (bytes_of after) ≡ take req.request_size (bytes_of bio))

  module _ (req : MapRequest) (data_block : List ℕ) (bio : List (List ℕ)) (random : List ℕ)
      (s : Store Memory) (disk : Disk) (can : CanWrite fs config coder req data_block s.afs_map)
      (whole : req.request_size ≤ length (bytes_of bio)) where
    abbrev e : ℕ
    e = afs_get_map_entry config req.block

    pub read_request_lem :
        (pages : List (List ℕ)) (r : Sent Memory Disk) (into : List (List ℕ))
        → length pages ≡ coder.count
        → ArePages pages
        → length r.store.afs_map ≡ length s.afs_map
        → Succeeded ops device fs config coder hash16 e pages disk r
        → AreDistinct r.block_nums
        → afs_read_request ops device fs config coder hash16 all_aligned true req into
            (afs_write_endio ops device fs config coder hash16 all_aligned req.block pages
              r.store.afs_map)
            r.disk
          ≡ done (reading r.block_nums pages)
    unfolding afs_read_request afs_write_endio asked
    read_request_lem pages r into count are same done_lem distinct =
        let n = can.count in
        let fits = can.entry in
        let c = done_lem.count in
        let bytes = store_checksums hash16 e 0 pages r.store.afs_map in
        let (_, ptrs, _, _) = store_checksums_lem hash16 e 0 pages r.store.afs_map (omega arith) in
        let a = done_lem.entered in
        let entered : AreEntered e 0 r.block_nums bytes = record {
          pointer = λ j h. ptrs (0 + j) ∙ a.pointer j h;
          valid = a.valid;
          word = a.word;
        } in
        let nums =
          ap (block_nums_of ops device fs config coder hash16 all_aligned bytes e 0) (sym c)
          ∙ block_nums_of-entered ops device fs config coder hash16 e 0 r.block_nums bytes
              entered in
        let some_carrier = can.some_carrier in
        let z : 0 + 0 ≡ 0 = omega arith in
        let first = ap (carrier_block_ptr bytes e) (sym z) ∙ entered.pointer 0 (omega arith) in
        let valid : (carrier_block_ptr bytes e 0 == invalid_block) ≡ false =
          let ne = entered.valid 0 (omega arith) in ground (arith, first, ne) in
        let (_, back) =
          read_pages-write_pages device fs can.start 0 r.block_nums pages disk (omega arith) are
            distinct in
        rw valid (rw nums (rw done_lem.on_disk (rw back refl)))
