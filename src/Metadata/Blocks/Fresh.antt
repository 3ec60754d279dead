-- ===== src/Metadata/Blocks/Fresh.antt =====
-- The map that `afs_create_map` of src/dm_afs_metadata.c makes.
use artifice.Base.{
  ℕ, zero, suc, ◌+◌, ◌*◌, ◌^◌, ◌%◌, ◌≤◌, ◌<◌, ◌≡◌, refl, sym, ◌∙◌, ap, arith, some, List, [], ◌++◌,
  length, length-append, length-replicate, memcpy, take, take_all, take-memcpy, length-memcpy, ok,
}
use mathlib.Core.List.{append_assoc, append-nil}
use artifice.Format.{Config}
use artifice.Metadata.Blocks.{invalid_tuples, invalid_entry, create_entries, afs_create_map}

length-invalid_tuples : (n : ℕ) → length (invalid_tuples n) ≡ 6 * n
unfolding invalid_tuples
length-invalid_tuples zero = refl
length-invalid_tuples (suc n) = omega (arith, length-invalid_tuples n)

-- An entry has the size that `build_configuration` computes.
pub length-invalid_entry : (n : ℕ) → length (invalid_entry n) ≡ 40 + 6 * n
unfolding invalid_entry
length-invalid_entry n = omega (
  arith,
  length-append (invalid_tuples n) (artifice.Base.replicate 40 0),
  length-invalid_tuples n,
  length-replicate {A = ℕ} 40 0,
)

-- A map of `n` entries in which nothing is allocated.
unfoldable pub invalid_map : ℕ → ℕ → List ℕ
invalid_map carriers zero = []
invalid_map carriers (suc n) = invalid_entry carriers ++ invalid_map carriers n

invalid_map_snoc : (c n : ℕ) → invalid_map c n ++ invalid_entry c ≡ invalid_map c (suc n)
unfolding invalid_map
invalid_map_snoc c zero = sym (append-nil (invalid_entry c))
invalid_map_snoc c (suc n) =
    append_assoc (invalid_entry c) (invalid_map c n) (invalid_entry c)
    ∙ ap (λ k. invalid_entry c ++ k) (invalid_map_snoc c n)

module _ (config : Config) (sized : config.map_entry_sz ≡ 40 + 6 * config.num_carrier_blocks)
    (small : config.num_blocks * config.map_entry_sz < 2 ^ 32) where
  open config use {num_carrier_blocks, map_entry_sz, num_blocks}

  create_entries_lem :
      (rounds i : ℕ) (m : List ℕ)
      → i + rounds ≡ num_blocks
      → length m ≡ num_blocks * map_entry_sz
      → take (i * map_entry_sz) m ≡ invalid_map num_carrier_blocks i
      → create_entries config rounds i m ≡ invalid_map num_carrier_blocks num_blocks
  unfolding create_entries
  create_entries_lem zero i m all len done_part =
      let e : i ≡ num_blocks = omega arith in
      rw e at (sym (take_all (i * map_entry_sz) m (rw e (omega arith))) ∙ done_part)
  create_entries_lem (suc rounds) i m all len done_part =
      let entry = invalid_entry num_carrier_blocks in
      let l : length entry ≡ map_entry_sz = length-invalid_entry num_carrier_blocks ∙ sym sized in
      let fits : (i + 1) * map_entry_sz ≤ num_blocks * map_entry_sz = grind arith in
      let w : i * map_entry_sz % 2 ^ 32 ≡ i * map_entry_sz = omega arith in
      let sum : (i + 1) * map_entry_sz ≡ i * map_entry_sz + length entry = omega arith in
      rw w (
        create_entries_lem rounds (i + 1) (memcpy m (i * map_entry_sz) entry) (omega arith)
          (length-memcpy m (i * map_entry_sz) entry (omega arith) ∙ len)
          (rw sum (
            take-memcpy m (i * map_entry_sz) entry (omega arith)
            ∙ ap (λ k. k ++ entry) done_part
            ∙ invalid_map_snoc num_carrier_blocks i
            ∙ (let e : suc i ≡ i + 1 = omega arith in rw e refl))))

  -- Where an entry has 40 + 6 * num_carrier_blocks bytes and the map less than 4 GiB, whatever the memory
  -- of its size held that `vmalloc` gives, the map that `afs_create_map` returns consists of
  -- one entry for each block, with no carrier block, and with zero checksums, hash and entropy.
  pub afs_create_map_lem :
      (memory : List ℕ)
      → length memory ≡ num_blocks * map_entry_sz
      → afs_create_map config (some memory) ≡ ok (invalid_map num_carrier_blocks num_blocks)
  unfolding afs_create_map
  afs_create_map_lem memory len = ap ok (
      create_entries_lem num_blocks 0 memory (omega arith) len
        (let z : 0 * map_entry_sz ≡ 0 = omega arith in rw z (unfold invalid_map in refl)))
