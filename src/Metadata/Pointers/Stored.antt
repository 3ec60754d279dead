-- ===== src/Metadata/Pointers/Stored.antt =====
-- What `write_map_blocks` of src/dm_afs_metadata.c leaves on the device when it acquires its blocks.
use artifice.Base.{
  ℕ, ◌+◌, ◌^◌, ◌%◌, ◌<◌, ◌≡◌, ◌≢◌, refl, ◌∙◌, ap, arith, Bool, true, false, ◌==◌, some, get_elem?,
  enospc, enomem, ok, err, pending, done, List, [], ◌∷◌, length,
}
use artifice.Kernel.{BitOps, Device}
use artifice.Allocation.{AllocationVector, PassiveFs, invalid_block, acquire_block}
use artifice.Allocation.Laws.{in_use}
use artifice.Allocation.Acquire.{IsUsable, Took}
use artifice.Io.{transfer, afs_blkdev_io, read_page, write_page}
use artifice.Io.Laws.{read_page-write_page}
use artifice.Metadata.Pointers.{Progress, write_block, choose, behind, go_on, fill_pointers}

-- The free list names no block twice, and only blocks below 4 GiB.
pub record IsDistinct (fs : PassiveFs) : Type 0 where
  pub apart :
      (p q b : ℕ)
      → p < fs.list_len
      → q < fs.list_len
      → get_elem? fs.block_list p ≡ some b
      → get_elem? fs.block_list q ≡ some b
      → p ≡ q
  pub below : (p b : ℕ) → get_elem? fs.block_list p ≡ some b → b < 2 ^ 20
  pub near : fs.data_start_off < 2 ^ 31

abbrev pub ArePages : List (List ℕ) → Type 0
ArePages [] = Unit {0}
ArePages (page ∷ pages) = (length page ≡ 4096) × ArePages pages

module _ (ops : BitOps) (device : Device) (fs : PassiveFs) (has_bio : ℕ → Bool) where
  open ops use {Memory}
  open device use {Disk}

  -- Block `b` of the free list is in use, and it holds the page.
  pub record Kept (b : ℕ) (page : List ℕ) (s : Progress Memory Disk) : Type 0 where
    pub position : ℕ
    pub inside : position < fs.list_len
    pub names : get_elem? fs.block_list position ≡ some b
    pub used : in_use ops s.vector position ≡ true
    pub holds :
        (buffer : List ℕ) → read_page device true buffer b fs.data_start_off s.disk ≡ (ok tt, page)

  -- Each page is kept at its pointer, as far as there are pointers.
  abbrev pub Stored : List ℕ → List (List ℕ) → Progress Memory Disk → Type 0
  Stored [] pages s = Unit {0}
  Stored (b ∷ bs) [] s = Unit {0}
  Stored (b ∷ bs) (page ∷ pages) s = Kept b page s × Stored bs pages s

  module _ {n : ℕ} (u : IsUsable n fs) (d : IsDistinct fs) where
    pub still_used :
        (b' p : ℕ) (a a' : AllocationVector Memory)
        → Took ops n fs a b' a'
        → in_use ops a p ≡ true
        → in_use ops a' p ≡ true
    still_used b' p a a' t used = ground (arith, t.now p, used)

    pub near : fs.data_start_off % 2 ^ 32 ≡ fs.data_start_off
    near = let k = d.near in omega arith

    -- Acquiring and writing a block keeps what is kept.
    pub Kept-before :
        (b b' : ℕ) (page page' : List ℕ) (s : Progress Memory Disk) (v' : AllocationVector Memory)
        (draws : List ℕ) (w : ℕ)
        → Took ops n fs s.vector b' v'
        → length page' ≡ 4096
        → Kept b page s
        → Kept b page (record {
          vector = v';
          draws = draws;
          disk = (write_page device true page' b' fs.data_start_off s.disk).1;
          blocks_written = w;
        })
    Kept-before b b' page page' s v' draws w t len k =
        let other : b' ≢ b = λ e. absurd (
          ground (
            arith,
            t.was_free,
            k.used,
            d.apart t.position k.position b t.inside k.inside (rw e at t.names) k.names,
          )) in
        record {
          position = k.position;
          inside = k.inside;
          names = k.names;
          used = still_used b' k.position s.vector v' t k.used;
          holds = λ buffer.
              (read_page-write_page device b' b fs.data_start_off page' buffer s.disk
                  (d.below t.position b' t.names) (d.below k.position b k.names) d.near len).2
                other
              ∙ k.holds buffer;
        }

    -- The new block is kept.
    pub Kept-now :
        (b : ℕ) (page : List ℕ) (s : Progress Memory Disk) (v' : AllocationVector Memory)
        (draws : List ℕ) (w : ℕ)
        → Took ops n fs s.vector b v'
        → length page ≡ 4096
        → Kept b page (record {
          vector = v';
          draws = draws;
          disk = (write_page device true page b fs.data_start_off s.disk).1;
          blocks_written = w;
        })
    Kept-now b page s v' draws w t len =
        let low = d.below t.position b t.names in
        record {
          position = t.position;
          inside = t.inside;
          names = t.names;
          used = ground (arith, t.now t.position);
          holds = λ buffer.
              (read_page-write_page device b b fs.data_start_off page buffer s.disk low low d.near
                len).1;
        }

    -- The state after a block is acquired, after its page is written, and after no memory was had for that.
    abbrev pub acquired :
        Progress Memory Disk → AllocationVector Memory → List ℕ → Progress Memory Disk
    acquired s v draws = record s { vector = v; draws = draws }

    abbrev pub written :
        Progress Memory Disk → ℕ → List ℕ → AllocationVector Memory → List ℕ → Progress Memory Disk
    written s b page v draws = record {
      vector = v;
      draws = draws;
      disk = (write_page device true page b fs.data_start_off s.disk).1;
      blocks_written = s.blocks_written + 1;
    }

    -- The ways a round goes.
    module _ (pointer : ℕ) (pointers : List ℕ) (page : List ℕ) (pages : List (List ℕ))
        (s : Progress Memory Disk) where
      pub fill-pending :
          acquire_block ops fs s.vector s.draws ≡ pending
          → fill_pointers ops device fs has_bio false (pointer ∷ pointers) (page ∷ pages) s
            ≡ pending
      unfolding fill_pointers choose
      fill-pending e = rw (fill_pointers, choose, e) refl

      pub fill-full :
          (v : AllocationVector Memory) (draws : List ℕ)
          → acquire_block ops fs s.vector s.draws ≡ done (invalid_block, v, draws)
          → fill_pointers ops device fs has_bio false (pointer ∷ pointers) (page ∷ pages) s
            ≡ done (err enospc, pointer ∷ pointers, page ∷ pages, acquired s v draws)
      unfolding fill_pointers choose
      fill-full v draws e = rw (fill_pointers, choose, e) refl

      pub write_block-done :
          (b : ℕ) (v : AllocationVector Memory) (draws : List ℕ)
          → has_bio s.blocks_written ≡ true
          → write_block ops device fs has_bio page b v draws s
            ≡ (ok tt, record (written s b page v draws) { blocks_written = s.blocks_written })
      unfolding write_block write_page afs_blkdev_io transfer
      write_block-done b v draws bio = rw (bio, near) refl

      pub write_block-refused :
          (b : ℕ) (v : AllocationVector Memory) (draws : List ℕ)
          → has_bio s.blocks_written ≡ false
          → write_block ops device fs has_bio page b v draws s ≡ (err enomem, acquired s v draws)
      unfolding write_block write_page afs_blkdev_io transfer
      write_block-refused b v draws bio = rw bio refl

      pub fill-written :
          (b : ℕ) (v : AllocationVector Memory) (draws : List ℕ)
          → acquire_block ops fs s.vector s.draws ≡ done (b, v, draws)
          → (b == invalid_block) ≡ false
          → has_bio s.blocks_written ≡ true
          → fill_pointers ops device fs has_bio false (pointer ∷ pointers) (page ∷ pages) s
            ≡ behind ops device fs has_bio b (
                fill_pointers ops device fs has_bio false pointers pages (written s b page v draws))
      unfolding fill_pointers choose go_on
      fill-written b v draws e valid bio =
          rw (fill_pointers, choose, e, valid)
            (ap
              (go_on ops device fs has_bio b pointers (page ∷ pages)
                (fill_pointers ops device fs has_bio false pointers pages))
              (write_block-done b v draws bio))

      pub fill-refused :
          (b : ℕ) (v : AllocationVector Memory) (draws : List ℕ)
          → acquire_block ops fs s.vector s.draws ≡ done (b, v, draws)
          → (b == invalid_block) ≡ false
          → has_bio s.blocks_written ≡ false
          → fill_pointers ops device fs has_bio false (pointer ∷ pointers) (page ∷ pages) s
            ≡ done (err enomem, b ∷ pointers, page ∷ pages, acquired s v draws)
      unfolding fill_pointers choose go_on
      fill-refused b v draws e valid bio =
          rw (fill_pointers, choose, e, valid)
            (ap
              (go_on ops device fs has_bio b pointers (page ∷ pages)
                (fill_pointers ops device fs has_bio false pointers pages))
              (write_block-refused b v draws bio))
