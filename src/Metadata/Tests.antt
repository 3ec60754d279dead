-- ===== src/Metadata/Tests.antt =====
-- The metadata at small inputs. One carrier makes entries of 46 bytes, 87 to a map block.
use artifice.Base.{done, ℕ, ◌≡◌, refl, some, arith, List, [], ◌∷◌, Option, ok, replicate}
use artifice.Format.{Config}
use artifice.Metadata.Configuration.{
  build_configuration, entry_size, unused_space, entries_per_block, round_up, ptr_blocks,
}
use artifice.Metadata.Configuration.Layout.{IsLaidOut, build_configuration-IsLaidOut}
use artifice.Metadata.Search.{binary_search}
use artifice.Metadata.Search.Laws.{Ascends, Increasing-Ascends, Answers, binary_search_lem}
use artifice.Metadata.Blocks.{afs_create_map}
use artifice.Metadata.Blocks.Fresh.{invalid_map, afs_create_map_lem}

abbrev blank : Config
blank = record {
  num_carrier_blocks = 0;
  threshold = 0;
  num_entropy_blocks = 0;
  map_entry_sz = 0;
  unused_space_per_block = 0;
  num_map_entries_per_block = 0;
  num_blocks = 0;
  num_map_blocks = 0;
  num_ptr_blocks = 0;
  instance_size = 4_194_304;
  bdev_size = 100_000;
}

-- 4 MiB with four carriers: the numbers of the README.
four_mib : Config
four_mib = record blank {
  num_carrier_blocks = 4;
  num_entropy_blocks = 1;
  map_entry_sz = 64;
  num_map_entries_per_block = 63;
  num_blocks = 1024;
  num_map_blocks = 17;
}

build_configuration_runs : build_configuration blank 4 1 ≡ some four_mib
unfolding build_configuration entry_size unused_space entries_per_block round_up ptr_blocks four_mib
build_configuration_runs = refl

build_configuration-IsLaidOut_example :
    (after : Config) × (build_configuration blank 4 1 ≡ some after) × IsLaidOut 4 blank after
build_configuration-IsLaidOut_example =
    build_configuration-IsLaidOut blank 4 1 (omega arith) (omega arith)

abbrev free_list : List ℕ
free_list = 2 ∷ 3 ∷ 7 ∷ 20 ∷ []

free_list-Ascends : Ascends 4 free_list
free_list-Ascends = Increasing-Ascends 0 free_list (omega arith)

binary_search_example :
    (r : Option ℕ) × (binary_search free_list 7 4 ≡ done r) × Answers free_list 7 0 4 r
binary_search_example = binary_search_lem 4 free_list 7 free_list-Ascends (omega arith)

abbrev two_entries : Config
two_entries = record blank {
  num_carrier_blocks = 1;
  map_entry_sz = 46;
  unused_space_per_block = 30;
  num_map_entries_per_block = 87;
  num_blocks = 2;
  num_map_blocks = 1;
}

-- A digest of the right size; the theorem asks for nothing more.
abbrev zero_digest : List ℕ → List ℕ
zero_digest _ = replicate 64 0

afs_create_map_lem_example :
    afs_create_map two_entries (some (replicate 92 1)) ≡ ok (invalid_map 1 2)
unfolding replicate
afs_create_map_lem_example = afs_create_map_lem two_entries refl (omega arith) (replicate 92 1) refl
