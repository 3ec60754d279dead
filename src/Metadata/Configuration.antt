-- ===== src/Metadata/Configuration.antt =====
-- `build_configuration` of src/dm_afs_metadata.c: how the map is laid out in blocks. A division by
-- zero is `none`. Assignments wrap at the width of the field.
pub mod Layout
use artifice.Base.{
  ℕ, ◌+◌, ◌-◌, ◌*◌, ◌/◌, ◌%◌, ◌^◌, Option, none, some, ltb, ◌==◌, if◌then◌else◌, ◌||◌,
}
use artifice.Format.{
  Config, block_size, sha512_size, carrier_hash_size, entropy_hash_size, map_tuple_size,
  map_blocks_in_sb, map_blocks_in_pb,
}

-- `map_entry_sz`, `unused_space_per_block` and `num_map_entries_per_block`
unfoldable pub entry_size : ℕ → ℕ
entry_size carriers = (carrier_hash_size + entropy_hash_size + map_tuple_size * carriers) % 2 ^ 8

unfoldable pub unused_space : ℕ → ℕ
unused_space entry = (block_size - sha512_size) % entry % 2 ^ 8

unfoldable pub entries_per_block : ℕ → ℕ
entries_per_block entry = (block_size - sha512_size) / entry % 2 ^ 8

-- The quotient rounded up, in 32 bits, as the code spells it.
unfoldable pub round_up : ℕ → ℕ → ℕ
round_up n d = (n / d + (if n % d == 0 then 0 else 1)) % 2 ^ 32

-- `num_ptr_blocks`: the difference wraps where all pointers fit the super block.
unfoldable pub ptr_blocks : ℕ → ℕ
ptr_blocks map_blocks =
    let beyond = (map_blocks + 2 ^ 32 - map_blocks_in_sb) % 2 ^ 32 in
    if ltb map_blocks beyond then 0 else round_up beyond map_blocks_in_pb

unfoldable pub build_configuration : Config → ℕ → ℕ → Option Config
build_configuration config num_carrier_blocks num_entropy_blocks =
    let entry = entry_size num_carrier_blocks in
    let entries = entries_per_block entry in
    let blocks = config.instance_size / block_size % 2 ^ 32 in
    let map_blocks = round_up blocks entries in
    if entry == 0 || entries == 0
    then none
    else some (record config {
      num_carrier_blocks = num_carrier_blocks;
      num_entropy_blocks = num_entropy_blocks;
      map_entry_sz = entry;
      unused_space_per_block = unused_space entry;
      num_map_entries_per_block = entries;
      num_blocks = blocks;
      num_map_blocks = map_blocks;
      num_ptr_blocks = ptr_blocks map_blocks;
    })
