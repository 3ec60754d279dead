-- ===== src/Metadata/Configuration/Layout.antt =====
-- The layout that `build_configuration` of src/dm_afs_metadata.c chooses.
use native.Mathlib.Nat.{mod-lt, add-zero}
use artifice.Base.{
  ℕ, false, ◌-◌, ◌+◌, ◌*◌, ◌/◌, ◌%◌, ◌^◌, ◌≤◌, ◌<◌, ◌≡◌, refl, true, Bool, ◌&&◌, ltb, ◌==◌, some,
  arith, inl, inr, Bool-cases, holds_up_to, holds_up_to_lem, ◌⊎◌, if◌then◌else◌,
}
use artifice.Format.{Config, block_size, sha512_size, map_blocks_in_sb, map_blocks_in_pb}
use artifice.Metadata.Configuration.{
  entry_size, unused_space, entries_per_block, round_up, ptr_blocks, build_configuration,
}

layout_fits : ℕ → Bool
layout_fits n =
    entry_size n == 40 + 6 * n
    && entry_size n * entries_per_block (entry_size n) + unused_space (entry_size n) == 4032
    && ltb 0 (entries_per_block (entry_size n))

layout_table : holds_up_to layout_fits 36 ≡ true
unfolding holds_up_to layout_fits entry_size entries_per_block unused_space
layout_table = refl

-- Up to 35 carriers an entry fits its 8-bit size, and entries and padding make up the block after
-- its hash.
layout_fits_lem :
    (n : ℕ)
    → n < 36
    → (entry_size n ≡ 40 + 6 * n)
      × (entry_size n * entries_per_block (entry_size n) + unused_space (entry_size n) ≡ 4032)
      × (0 < entries_per_block (entry_size n))
unfolding layout_fits
layout_fits_lem n h = ground (arith, holds_up_to_lem layout_fits 36 n layout_table h)

-- Rounding up, from the quotient and the remainder.
round_up_parts :
    (q r n d : ℕ)
    → q * d + r ≡ n
    → r < d
    → n < 2 ^ 32
    → let u = (q + (if r == 0 then 0 else 1)) % 2 ^ 32 in (n ≤ u * d) × (u * d < n + d) × (u ≤ n)
round_up_parts q r n d e h small = elim (Bool-cases (r == 0)) [
  | inl z ↦
      let q_le : q ≤ q * d = grind arith in
      let w : q % 2 ^ 32 ≡ q = omega arith in rw z (rw (add-zero, w) (ground arith))
  | inr nz ↦
      let q_le : q ≤ q * d = grind arith in
      let pos : 0 < r = ground arith in
      let q_lt : q + 1 ≤ n = omega arith in
      let w : (q + 1) % 2 ^ 32 ≡ q + 1 = omega arith in rw (nz, w) (ground arith)
]

round_up_lem :
    (n d : ℕ)
    → 0 < d
    → n < 2 ^ 32
    → (n ≤ round_up n d * d) × (round_up n d * d < n + d) × (round_up n d ≤ n)
unfolding round_up
round_up_lem n d h small = round_up_parts (n / d) (n % d) n d (omega arith) (mod-lt n h) small

ptr_blocks_lem :
    (m : ℕ)
    → m < 2 ^ 32
    → (m ≤ map_blocks_in_sb + map_blocks_in_pb * ptr_blocks m)
      × ((ptr_blocks m ≡ 0)
          ⊎ (map_blocks_in_sb + map_blocks_in_pb * ptr_blocks m < m + map_blocks_in_pb))
unfolding ptr_blocks round_up
ptr_blocks_lem m h = ground arith

-- What a layout has to satisfy.
pub record IsLaidOut (carriers : ℕ) (before after : Config) : Type 0 where
  pub carriers_kept : after.num_carrier_blocks ≡ carriers
  pub entry : after.map_entry_sz ≡ 40 + 6 * carriers
  pub filled :
      after.map_entry_sz * after.num_map_entries_per_block + after.unused_space_per_block
      ≡ block_size - sha512_size
  pub nonzero : 0 < after.num_map_entries_per_block
  pub blocks : after.num_blocks ≡ before.instance_size / block_size
  pub roomy : after.num_blocks ≤ after.num_map_blocks * after.num_map_entries_per_block
  pub tight :
      after.num_map_blocks * after.num_map_entries_per_block
      < after.num_blocks + after.num_map_entries_per_block
  pub reached : after.num_map_blocks ≤ map_blocks_in_sb + map_blocks_in_pb * after.num_ptr_blocks
  pub no_more :
      (after.num_ptr_blocks ≡ 0)
      ⊎ (map_blocks_in_sb + map_blocks_in_pb * after.num_ptr_blocks
          < after.num_map_blocks + map_blocks_in_pb)
  pub kept : (after.instance_size ≡ before.instance_size) × (after.bdev_size ≡ before.bdev_size)

-- For up to 35 carriers and an instance below 16 TiB `build_configuration` succeeds: an entry has 40
-- bytes and 6 for each carrier, padding and entries fill a map block after its hash, the map blocks
-- hold every entry and no block is superfluous, and the pointers of the super block and of the
-- pointer blocks reach every map block, with no superfluous pointer block.
pub build_configuration-IsLaidOut :
    (config : Config) (carriers entropy : ℕ)
    → carriers < 36
    → config.instance_size < 2 ^ 44
    → (after : Config) × (build_configuration config carriers entropy ≡ some after)
      × IsLaidOut carriers config after
unfolding build_configuration
build_configuration-IsLaidOut config carriers entropy h small =
    let (e, f, p) = layout_fits_lem carriers h in
    let entries = entries_per_block (entry_size carriers) in
    let blocks = config.instance_size / block_size % 2 ^ 32 in
    let (roomy, tight, le) = round_up_lem blocks entries p (omega arith) in
    let (reached, no_more) = ptr_blocks_lem (round_up blocks entries) (omega arith) in
    let a : (entry_size carriers == 0) ≡ false = ground arith in
    let b : (entries == 0) ≡ false = ground arith in
    rw (a, b)
      (
        _,
        refl,
        record {
          carriers_kept = refl;
          entry = e;
          filled = f;
          nonzero = p;
          blocks = omega arith;
          roomy = roomy;
          tight = tight;
          reached = reached;
          no_more = no_more;
          kept = (refl, refl);
        },
      )
