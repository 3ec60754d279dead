-- ===== src/Engine/Tests/Requests.antt =====
-- A write of one sector to a small instance, for src/dm_afs_engine.c.
use artifice.Base.{
  ℕ, some, ◌+◌, ◌^◌, ◌≡◌, ◌≤◌, ◌<◌, ◌⊎◌, refl, arith, true, false, List, [], ◌∷◌, length, replicate,
  length-replicate, take, drop, ok, done, pending, none, length-append,
}
use artifice.Format.{Config}
use artifice.Kernel.{bits_ops, pages_device}
use artifice.Allocation.{PassiveFs, invalid_block}
use artifice.Target.Request.{MapRequest}
use artifice.Engine.Entry.{afs_get_map_entry, carrier_block_ptr, tuple_at, map_entry_difference}
use artifice.Engine.Entry.Laws.{Apart, afs_get_map_entry-Apart}
use artifice.Engine.Segments.{copy_in, copy_out}
use artifice.Engine.Segments.Laws.{IsWithin, bytes_of}
use artifice.Engine.Segments.RoundTrip.{copy_out-copy_in}
use artifice.Engine.Pages.Laws.{AreDistinct, all_aligned}
use artifice.Engine.Carriers.{Store}
use artifice.Engine.Carriers.Laws.{AreEntered}
use artifice.Engine.Requests.{
  Coder, encodes, Sent, afs_write_request, afs_read_request, afs_write_endio, rebuild_blocks,
  reading,
}
use artifice.Engine.Requests.Written.{Within, Failed}
use artifice.Engine.Requests.ReadBack.{ReadsBack}

abbrev first_page : List (List ℕ) → List ℕ
first_page [] = []
first_page (page ∷ pages) = page

-- One carrier, which holds the block itself.
abbrev plain : Coder
plain = record {
  count = 1;
  encode = λ random block. (replicate 32 0, block ∷ []);
  decode = λ pages. (replicate 32 0, first_page pages);
  length-difference = λ random block h. length-replicate 32 0;
  length-pages = λ random block h. (refl, (h, tt));
  decode-encode = λ random block h. refl;
}

abbrev config : Config
config = record {
  num_carrier_blocks = 1;
  threshold = 1;
  num_entropy_blocks = 0;
  map_entry_sz = 46;
  unused_space_per_block = 2;
  num_map_entries_per_block = 87;
  num_blocks = 2;
  num_map_blocks = 1;
  num_ptr_blocks = 0;
  instance_size = 8192;
  bdev_size = 65536;
}

abbrev fs : PassiveFs
fs = record {
  block_list = 4 ∷ 5 ∷ [];
  list_len = 2;
  sectors_per_block = 8;
  total_blocks = 16;
  data_start_off = 2;
  blocks_in_tuple = 1;
}

abbrev one_sector : MapRequest
one_sector = record { block = 1; sector_offset = 3; request_size = 512 }

abbrev sevens : List ℕ
sevens = replicate 512 7

abbrev bio : List (List ℕ)
bio = sevens ∷ []

abbrev block : List ℕ
block = replicate 4096 0

abbrev store : Store (bits_ops.Memory)
store = record { afs_map = replicate 92 1; vector = record { vector = none }; draws = [] }

length-bio : 512 ≤ length (bytes_of bio)
unfolding bytes_of
length-bio = omega (arith, length-append sevens [], length-replicate {A = ℕ} 512 7)

one_sector-IsWithin : IsWithin one_sector
unfolding IsWithin
one_sector-IsWithin = omega arith

-- The request is read back from what the write left.
abbrev WriteEnds : Type 0
WriteEnds =
    (afs_write_request bits_ops pages_device fs config plain length all_aligned true one_sector
          block bio (encodes []) store (λ _. [])
        ≡ pending)
      × (carrier_block_ptr store.afs_map (afs_get_map_entry config 1) 0 ≡ invalid_block)
    ⊎ ((r : Sent bits_ops.Memory pages_device.Disk) × (afs_write_request bits_ops pages_device fs
            config plain length all_aligned true one_sector block bio (encodes []) store (λ _. [])
          ≡ done r)
        × Within (afs_get_map_entry config 1) 46 store.afs_map r.store.afs_map
        × ((r.ret ≡ ok tt)
              × (length r.block_nums ≡ 1)
              × AreEntered (afs_get_map_entry config 1) 0 r.block_nums r.store.afs_map
              × (AreDistinct r.block_nums
                  → ReadsBack bits_ops pages_device fs config plain length one_sector bio r)
            ⊎ Failed bits_ops pages_device fs config plain length (afs_get_map_entry config 1)
                (λ _. []) r))

copy_out-copy_in_example :
    (block' : List ℕ) × (after : List (List ℕ)) × (copy_in one_sector (done block) 0 bio
      ≡ done block')
    × (copy_out one_sector block' 0 bio ≡ done after)
    × (take 512 (bytes_of after) ≡ take 512 (bytes_of bio))
    × (drop 512 (bytes_of after) ≡ drop 512 (bytes_of bio))
    × (take 1536 block' ≡ take 1536 block)
    × (drop 2048 block' ≡ drop 2048 block)
    × (length block' ≡ 4096)
copy_out-copy_in_example =
    copy_out-copy_in one_sector one_sector-IsWithin block bio bio (length-replicate {A = ℕ} 4096 0)
      length-bio length-bio

afs_get_map_entry-Apart_example :
    (afs_get_map_entry config 0 + 46 ≤ length store.afs_map)
    × Apart (afs_get_map_entry config 0) 46 (afs_get_map_entry config 1) 46
    × ((i : ℕ)
        → i < 1
        → tuple_at (afs_get_map_entry config 0) i + 6
          ≤ map_entry_difference config (afs_get_map_entry config 0))
    × (map_entry_difference config (afs_get_map_entry config 0) + 32
        ≤ afs_get_map_entry config 0 + 46)
afs_get_map_entry-Apart_example =
    afs_get_map_entry-Apart config store.afs_map 0 1 (length-replicate {A = ℕ} 92 1) (omega arith)
      (omega arith) (omega arith) (omega arith) (λ e. absurd (omega (arith, e)))

-- With entries of 64 bytes two blocks that lie 256 GiB apart share an entry.
entries_shared :
    afs_get_map_entry (record config { map_entry_sz = 64 }) 0
    ≡ afs_get_map_entry (record config { map_entry_sz = 64 }) (2 ^ 26)
unfolding afs_get_map_entry
entries_shared = omega arith

-- All positions are free.
abbrev free_store : Store (bits_ops.Memory)
free_store = record {
  afs_map = replicate 92 1;
  vector = record {
    vector = some (record { array = record { count = 2; bit = λ j. false }; length = 15 });
  };
  draws = 1 ∷ [];
}

abbrev RebuildEnds : Type 0
RebuildEnds =
    (rebuild_blocks bits_ops pages_device fs config plain length all_aligned 1 block (encodes [])
        free_store (λ _. [])
      ≡ pending)
    ⊎ ((r : Sent bits_ops.Memory pages_device.Disk) × (rebuild_blocks bits_ops pages_device fs
            config plain length all_aligned 1 block (encodes []) free_store (λ _. [])
          ≡ done r)
        × Within (afs_get_map_entry config 1) 46 free_store.afs_map r.store.afs_map
        × ((r.ret ≡ ok tt)
              × (length r.block_nums ≡ 1)
              × AreEntered (afs_get_map_entry config 1) 0 r.block_nums r.store.afs_map
              × (AreDistinct r.block_nums
                  → afs_read_request bits_ops pages_device fs config plain length all_aligned true
                      one_sector bio
                      (afs_write_endio bits_ops pages_device fs config plain length all_aligned 1
                        (replicate 1 block) r.store.afs_map)
                      r.disk
                    ≡ done (reading r.block_nums (replicate 1 block)))
            ⊎ Failed bits_ops pages_device fs config plain length (afs_get_map_entry config 1)
                (λ _. []) r))
