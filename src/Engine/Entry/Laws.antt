-- ===== src/Engine/Entry/Laws.antt =====
-- Where the fields of a map entry of src/dm_afs_engine.c lie, and the entries of two blocks.
use artifice.Base.{
  ℕ, suc, ◌+◌, ◌*◌, ◌^◌, ◌≡◌, ◌≢◌, ◌≤◌, ◌<◌, ◌⊎◌, inl, inr, arith, ap, sym, ◌∙◌, List, length,
  memcpy, slice, le32_at, le32_bytes, length-memcpy, slice-memcpy_after, slice-memcpy_before,
  le32_at-slice, le32_at-le32_bytes, Bool-cases, ltb,
}
use native.Mathlib.Nat.{mul-le-mul_right, suc-mul}
use artifice.Format.{Config}
use artifice.Engine.Entry.{
  afs_get_map_entry, tuple_at, map_entry_difference, carrier_block_ptr, set_carrier_block_ptr,
}

-- Two ranges without a common byte.
abbrev pub Apart : ℕ → ℕ → ℕ → ℕ → Type 0
Apart a m b n = (a + m ≤ b) ⊎ (b + n ≤ a)

pub slice-memcpy-Apart :
    (bytes : List ℕ) (off : ℕ) (field : List ℕ) (i n : ℕ)
    → off + length field ≤ length bytes
    → Apart off (length field) i n
    → slice (memcpy bytes off field) i n ≡ slice bytes i n
slice-memcpy-Apart bytes off field i n h (inl a) =
    slice-memcpy_after bytes off field i n (omega arith) a
slice-memcpy-Apart bytes off field i n h (inr b) =
    slice-memcpy_before bytes off field i n b (omega arith)

apart : (e i j : ℕ) → i ≢ j → Apart (e + 6 * i) 4 (e + 6 * j) 4
apart e i j ne = elim (Bool-cases (ltb i j)) [
  | inl less ↦ let k : i < j = ground arith in inl (omega arith)
  | inr more ↦ let k : j < i = ground arith in inr (omega arith)
]

module _ (bytes : List ℕ) (e : ℕ) where
  pub length-set_ptr :
      (i v : ℕ)
      → e + 6 * suc i ≤ length bytes
      → length (set_carrier_block_ptr bytes e i v) ≡ length bytes
  unfolding set_carrier_block_ptr tuple_at le32_bytes
  length-set_ptr i v h = length-memcpy bytes (e + 6 * i) (le32_bytes v) (omega arith)

  pub ptr-set_ptr :
      (i v : ℕ)
      → e + 6 * suc i ≤ length bytes
      → v < 2 ^ 32
      → carrier_block_ptr (set_carrier_block_ptr bytes e i v) e i ≡ v
  unfolding set_carrier_block_ptr carrier_block_ptr tuple_at
  ptr-set_ptr i v h k = le32_at-le32_bytes bytes (e + 6 * i) v (omega arith) k

  -- What lies outside the four bytes of a pointer is kept when the pointer is set.
  pub slice-set_ptr :
      (i v a n : ℕ)
      → e + 6 * suc i ≤ length bytes
      → Apart (e + 6 * i) 4 a n
      → slice (set_carrier_block_ptr bytes e i v) a n ≡ slice bytes a n
  unfolding set_carrier_block_ptr tuple_at le32_bytes
  slice-set_ptr i v a n h k =
      slice-memcpy-Apart bytes (e + 6 * i) (le32_bytes v) a n (omega arith) k

  pub ptr-set_ptr_other :
      (i j v : ℕ)
      → e + 6 * suc i ≤ length bytes
      → i ≢ j
      → carrier_block_ptr (set_carrier_block_ptr bytes e i v) e j ≡ carrier_block_ptr bytes e j
  unfolding carrier_block_ptr tuple_at
  ptr-set_ptr_other i j v h k =
      le32_at-slice (set_carrier_block_ptr bytes e i v) (e + 6 * j)
      ∙ ap (λ s. le32_at s 0) (slice-set_ptr i v (e + 6 * j) 4 h (apart e i j k))
      ∙ sym (le32_at-slice bytes (e + 6 * j))

below : (b c sz : ℕ) → b < c → b * sz + sz ≤ c * sz
below b c sz h =
    let m : suc b * sz ≤ c * sz = mul-le-mul_right sz (omega arith) in
    let e : suc b * sz ≡ b * sz + sz = suc-mul b sz in omega arith

entry_lem :
    (config : Config) (b : ℕ)
    → config.num_blocks * config.map_entry_sz ≤ 2 ^ 32
    → config.map_entry_sz ≡ 40 + 6 * config.num_carrier_blocks
    → b < config.num_blocks
    → (afs_get_map_entry config b ≡ b * config.map_entry_sz)
      × (b * config.map_entry_sz + config.map_entry_sz ≤ config.num_blocks * config.map_entry_sz)
unfolding afs_get_map_entry
entry_lem config b small size h =
    let m = below b config.num_blocks config.map_entry_sz h in (omega arith, m)

-- Two different blocks of an instance whose map has at most 4 GiB: their entries lie in the map and have
-- no byte in common; within an entry the tuples and the difference have none either.
pub afs_get_map_entry-Apart :
    (config : Config) (bytes : List ℕ) (b c : ℕ)
    → length bytes ≡ config.num_blocks * config.map_entry_sz
    → config.num_blocks * config.map_entry_sz ≤ 2 ^ 32
    → config.map_entry_sz ≡ 40 + 6 * config.num_carrier_blocks
    → b < config.num_blocks
    → c < config.num_blocks
    → b ≢ c
    → (afs_get_map_entry config b + config.map_entry_sz ≤ length bytes)
      × Apart
          (afs_get_map_entry config b)
          config.map_entry_sz
          (afs_get_map_entry config c)
          config.map_entry_sz
      × ((i : ℕ)
          → i < config.num_carrier_blocks
          → tuple_at (afs_get_map_entry config b) i + 6
            ≤ map_entry_difference config (afs_get_map_entry config b))
      × (map_entry_difference config (afs_get_map_entry config b) + 32
          ≤ afs_get_map_entry config b + config.map_entry_sz)
unfolding afs_get_map_entry map_entry_difference tuple_at
afs_get_map_entry-Apart config bytes b c l small size h k ne =
    let n = config.num_blocks in
    let sz = config.map_entry_sz in
    let (e, inside) = entry_lem config b small size h in
    let (e', inside') = entry_lem config c small size k in
    rw (e, e')
      (
        omega arith,
        elim (Bool-cases (ltb b c)) [
          | inl less ↦ inl (below b c sz (ground arith))
          | inr more ↦ inr (below c b sz (ground arith))
        ],
        λ i l. omega arith,
        omega arith,
      )
