-- ===== src/Engine/Entry.antt =====
-- The entry of a block in the Artifice map, as src/dm_afs_engine.c finds it: `afs_get_map_entry`, and the
-- array of `struct afs_map_tuple` at its start, packed, of six bytes each. The map is a list of bytes, a
-- pointer into it is an offset, and the product of an index of 32 bits and a size of 8 has 32 bits.
pub mod Laws
use artifice.Base.{ℕ, ◌+◌, ◌*◌, ◌^◌, ◌%◌, List, memcpy, le16_at, le32_at, le16_bytes, le32_bytes}
use artifice.Format.{Config, map_tuple_size}

-- `afs_get_map_entry`
unfoldable pub afs_get_map_entry : Config → ℕ → ℕ
afs_get_map_entry config index = index * config.map_entry_sz % 2 ^ 32

-- `&req->map_entry_tuple[i]`
unfoldable pub tuple_at : ℕ → ℕ → ℕ
tuple_at map_entry i = map_entry + map_tuple_size * i

-- `req->map_entry_difference`, which is also `req->map_entry_hash`
unfoldable pub map_entry_difference : Config → ℕ → ℕ
map_entry_difference config map_entry = map_entry + config.num_carrier_blocks * map_tuple_size

-- `req->map_entry_tuple[i].carrier_block_ptr`, read and written
unfoldable pub carrier_block_ptr : List ℕ → ℕ → ℕ → ℕ
unfolding tuple_at
carrier_block_ptr bytes map_entry i = le32_at bytes (tuple_at map_entry i)

unfoldable pub set_carrier_block_ptr : List ℕ → ℕ → ℕ → ℕ → List ℕ
unfolding tuple_at
set_carrier_block_ptr bytes map_entry i block_num =
    memcpy bytes (tuple_at map_entry i) (le32_bytes block_num)

-- `req->map_entry_tuple[i].checksum`, read and written
unfoldable pub checksum_of : List ℕ → ℕ → ℕ → ℕ
unfolding tuple_at
checksum_of bytes map_entry i = le16_at bytes (tuple_at map_entry i + 4)

unfoldable pub set_checksum : List ℕ → ℕ → ℕ → ℕ → List ℕ
unfolding tuple_at
set_checksum bytes map_entry i checksum =
    memcpy bytes (tuple_at map_entry i + 4) (le16_bytes checksum)
