-- ===== src/Metadata/Fill/Tests.antt =====
-- A map of two entries in one map block, on a device with that block everywhere.
use artifice.Base.{done, ℕ, ◌≡◌, ◌==◌, refl, arith, true, Bool, some, ok, List, [], ◌∷◌, replicate}
use artifice.Kernel.{bits_ops, Bits, pages_device}
use artifice.Allocation.{PassiveFs}
use artifice.Format.{Config}
use artifice.Io.{read_page, afs_blkdev_io, transfer}
use artifice.Metadata.Blocks.{
  afs_create_map_blocks, map_blocks_from, map_block, entries_next, entries_left,
}
use artifice.Metadata.Blocks.Fits.{IsSized}
use artifice.Metadata.Pointers.{Progress}
use artifice.Metadata.Pointers.Stored.{Stored}
use artifice.Metadata.Fill.{Reading, fill_from_sb}
use artifice.Metadata.Fill.Reload.{fill_from_sb-afs_create_map_blocks}

abbrev two_entries : Config
two_entries = record {
  num_carrier_blocks = 1;
  threshold = 0;
  num_entropy_blocks = 0;
  map_entry_sz = 46;
  unused_space_per_block = 30;
  num_map_entries_per_block = 87;
  num_blocks = 2;
  num_map_blocks = 1;
  num_ptr_blocks = 0;
  instance_size = 8192;
  bdev_size = 100_000;
}

two_entries-IsSized : IsSized two_entries
two_entries-IsSized = omega arith

abbrev zero_digest : List ℕ → List ℕ
zero_digest _ = replicate 64 0

abbrev fs : PassiveFs
fs = record {
  block_list = 7 ∷ 2 ∷ 9 ∷ [];
  list_len = 3;
  sectors_per_block = 8;
  total_blocks = 16;
  data_start_off = 2048;
  blocks_in_tuple = 0;
}

abbrev entries : List ℕ
entries = replicate 92 7

abbrev block : List ℕ
block = map_block two_entries zero_digest entries 0

made : afs_create_map_blocks two_entries zero_digest true entries ≡ done (ok (block ∷ []))
unfolding afs_create_map_blocks map_blocks_from entries_next entries_left
made = refl

always : ℕ → Bool
always i = true

-- The second position of the free list is in use, and it names block 2.
abbrev state : Progress Bits (ℕ → List ℕ)
state = record {
  vector = record {
    vector = some (record { array = record { count = 2; bit = λ j. 1 == j }; length = 15 });
  };
  draws = [];
  disk = λ s. block;
  blocks_written = 1;
}

stored : Stored bits_ops pages_device fs always (2 ∷ []) (block ∷ []) state
unfolding read_page afs_blkdev_io transfer
stored = (
  record { position = 1; inside = omega arith; names = refl; used = refl; holds = λ buffer. refl },
  tt,
)

abbrev reading : Reading Bits
reading = record { vector = state.vector; afs_map = replicate 92 1; page = []; entries_read = 0 }

fill_from_sb-afs_create_map_blocks_example :
    ((fill_from_sb two_entries bits_ops pages_device fs
        (λ _. true)
        state.disk
        (2 ∷ 0 ∷ 0 ∷ [])
        reading).0
      ≡ ok tt)
    × ((fill_from_sb two_entries bits_ops pages_device fs
          (λ _. true)
          state.disk
          (2 ∷ 0 ∷ 0 ∷ [])
          reading).1.afs_map
        ≡ entries)
    × ((fill_from_sb two_entries bits_ops pages_device fs
          (λ _. true)
          state.disk
          (2 ∷ 0 ∷ 0 ∷ [])
          reading).1.entries_read
        ≡ 2)
unfolding replicate
fill_from_sb-afs_create_map_blocks_example =
    fill_from_sb-afs_create_map_blocks two_entries-IsSized zero_digest (λ _. refl) entries refl
      bits_ops pages_device fs always (block ∷ []) (2 ∷ []) (0 ∷ 0 ∷ []) state reading (omega arith)
      made (omega arith) refl stored refl refl
