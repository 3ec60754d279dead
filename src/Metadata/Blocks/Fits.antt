-- ===== src/Metadata/Blocks/Fits.antt =====
-- The layout of the map blocks of src/dm_afs_metadata.c: the copies, and where the entries stand.
use artifice.Base.{
  ℕ, ◌+◌, ◌-◌, ◌*◌, ◌^◌, ◌%◌, ◌≤◌, ◌<◌, ◌≡◌, refl, sym, ◌∙◌, ap, true, false, leb, arith, List,
  length, replicate, length-replicate, slice, memcpy, length-slice, slice-memcpy_header,
}
use artifice.Format.{Config, block_size, sha512_size}
use artifice.Metadata.Blocks.{entries_left, entries_next, entries_start, entries_at, map_block}

-- A configuration as `build_configuration` leaves it, whose map is smaller than 4 GiB: the byte
-- offsets in the map have 32 bits.
pub record IsSized (c : Config) : Type 0 where
  pub filled : c.map_entry_sz * c.num_map_entries_per_block + c.unused_space_per_block ≡ 4032
  pub nonzero : 0 < c.num_map_entries_per_block
  pub roomy : c.num_blocks ≤ c.num_map_blocks * c.num_map_entries_per_block
  pub entry : 0 < c.map_entry_sz
  pub small : c.num_blocks * c.map_entry_sz < 2 ^ 32

module _ {config : Config} (sized : IsSized config) where
  open config use {
    map_entry_sz, unused_space_per_block, num_map_entries_per_block, num_blocks, num_map_blocks,
  }

  pub num_blocks-lt : num_blocks < 2 ^ 32
  num_blocks-lt =
      let small = sized.small in
      let entry = sized.entry in
      let le : num_blocks ≤ num_blocks * map_entry_sz = grind arith in omega arith

  module _ (w : ℕ) (within : w ≤ num_blocks) where
    -- The next block takes the entries that are left, or as many as fit.
    pub entries_next_lem :
        (w + entries_next config w ≤ num_blocks)
        × (entries_next config w ≤ num_map_entries_per_block)
        × (entries_left config w ≡ num_blocks - w)
        × ((w + entries_next config w) % 2 ^ 32 ≡ w + entries_next config w)
    unfolding entries_next entries_left
    entries_next_lem = let b = num_blocks-lt in ground arith

    pub entries_next_cases :
        (leb (entries_left config w) num_map_entries_per_block ≡ true
          → w + entries_next config w ≡ num_blocks)
        × (leb (entries_left config w) num_map_entries_per_block ≡ false
            → entries_next config w ≡ num_map_entries_per_block)
    unfolding entries_next entries_left
    entries_next_cases = let b = num_blocks-lt in (λ h. ground arith, λ h. rw h refl)

    -- Its bytes lie inside the map, and inside the block.
    pub entries_bytes :
        (w * map_entry_sz % 2 ^ 32 ≡ w * map_entry_sz)
        × (w * map_entry_sz + entries_next config w * map_entry_sz ≤ num_blocks * map_entry_sz)
        × (sha512_size + unused_space_per_block + entries_next config w * map_entry_sz ≤ block_size)
    entries_bytes =
        let (a, b, c, d) = entries_next_lem in
        let all : (w + entries_next config w) * map_entry_sz ≤ num_blocks * map_entry_sz =
          grind arith in
        let block : entries_next config w * map_entry_sz
            ≤ map_entry_sz * num_map_entries_per_block =
          grind arith in
        let small = sized.small in
        let filled = sized.filled in (omega arith, omega arith, omega arith)

  module _ (hash_sha512 : List ℕ → List ℕ)
      (digest : (bytes : List ℕ) → length (hash_sha512 bytes) ≡ sha512_size) (afs_map : List ℕ)
      (whole : length afs_map ≡ num_blocks * map_entry_sz) (w : ℕ) (within : w ≤ num_blocks) where
    pub length-entries_at :
        length (entries_at config afs_map w) ≡ entries_next config w * map_entry_sz
    unfolding entries_at
    length-entries_at =
        let (a, b, c) = entries_bytes w within in
        rw a (
          length-slice afs_map (w * map_entry_sz) (entries_next config w * map_entry_sz)
            (omega arith))

    pub entries_at_lem :
        entries_at config afs_map w
        ≡ slice afs_map (w * map_entry_sz) (entries_next config w * map_entry_sz)
    unfolding entries_at
    entries_at_lem = rw ((entries_bytes w within).0) refl

    -- A map block has the size of a block, and holds the entries at `entries_start`.
    pub map_block_lem :
        (length (map_block config hash_sha512 afs_map w) ≡ block_size)
        × (slice
              (map_block config hash_sha512 afs_map w)
              (entries_start config)
              (entries_next config w * map_entry_sz)
            ≡ entries_at config afs_map w)
    unfolding map_block entries_start
    map_block_lem =
        let (a, b, c) = entries_bytes w within in
        let zeros = replicate block_size 0 in
        let len = length-replicate {A = ℕ} block_size 0 in
        let digest_len = digest (
          slice (memcpy zeros (entries_start config) (entries_at config afs_map w))
            (entries_start config) (block_size - sha512_size - unused_space_per_block)) in
        let (l, r) =
          slice-memcpy_header zeros (entries_start config) (entries_at config afs_map w)
            (hash_sha512 (
              slice (memcpy zeros (entries_start config) (entries_at config afs_map w))
                (entries_start config) (block_size - sha512_size - unused_space_per_block)))
            (omega (arith, length-entries_at)) (omega arith) in
        (
          l ∙ len,
          ap (slice (map_block config hash_sha512 afs_map w) (entries_start config))
                (sym length-entries_at)
              ∙ r,
        )
