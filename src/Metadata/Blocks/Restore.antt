-- ===== src/Metadata/Blocks/Restore.antt =====
-- The map blocks of `afs_create_map_blocks` of src/dm_afs_metadata.c under the copy loop of `afs_fill_map`.
use artifice.Base.{
  ltb, done, ◌^◌, ◌<◌, ◌*◌, ℕ, zero, suc, ◌+◌, ◌≤◌, ◌≡◌, refl, sym, ◌∙◌, ap, true, leb, ◌==◌, arith,
  inl, inr, Bool-cases, List, length, slice, take, drop, take_all, take-add, take-memcpy,
  length-memcpy, ok, ◌++◌,
}
use artifice.Format.{Config, sha512_size}
use artifice.Metadata.Blocks.{
  entries_left, entries_next, entries_at, map_block, map_blocks_from, afs_create_map_blocks,
  fill_entries, fill_from,
}
use artifice.Metadata.Blocks.Fits.{
  IsSized, entries_next_lem, entries_next_cases, entries_bytes, length-entries_at, entries_at_lem,
  map_block_lem,
}

module _ {config : Config} (sized : IsSized config) (hash_sha512 : List ℕ → List ℕ)
    (digest : (bytes : List ℕ) → length (hash_sha512 bytes) ≡ sha512_size) (afs_map : List ℕ)
    (whole : length afs_map ≡ config.num_blocks * config.map_entry_sz) where
  open config use {
    map_entry_sz, unused_space_per_block, num_map_entries_per_block, num_blocks, num_map_blocks,
  }

  -- The first `w` entries of a map under restoration are those of the map, and it has its size.
  pub record Restored (w : ℕ) (m : List ℕ) : Type 0 where
    pub bytes : take (w * map_entry_sz) m ≡ take (w * map_entry_sz) afs_map
    pub size : length m ≡ length afs_map

  -- One block more.
  fill_entries-Restored :
      (w : ℕ) (m : List ℕ)
      → w ≤ num_blocks
      → Restored w m
      → Restored
          (w + entries_next config w)
          (fill_entries config m w (map_block config hash_sha512 afs_map w))
  unfolding fill_entries slice
  fill_entries-Restored w m within r =
      let (a, b, c) = entries_bytes sized w within in
      let (size, body) = map_block_lem sized hash_sha512 digest afs_map whole w within in
      let src = entries_at config afs_map w in
      let len = length-entries_at sized hash_sha512 digest afs_map whole w within in
      let sum : (w + entries_next config w) * map_entry_sz ≡ w * map_entry_sz + length src =
        omega arith in
      let inside : w * map_entry_sz + length src ≤ length m = omega (arith, r.size) in
      rw (a, body)
        (record {
          bytes = rw sum (
              take-memcpy m (w * map_entry_sz) src (omega arith)
              ∙ ap (λ k. k ++ src) r.bytes
              ∙ ap (λ k. take (w * map_entry_sz) afs_map ++ k)
                  (entries_at_lem sized hash_sha512 digest afs_map whole w within
                    ∙ ap (λ k. take k (drop (w * map_entry_sz) afs_map)) (sym len))
              ∙ sym (take-add (w * map_entry_sz) (length src) afs_map));
          size = length-memcpy m (w * map_entry_sz) src inside ∙ r.size;
        })

  Restored-whole : (m : List ℕ) → Restored num_blocks m → m ≡ afs_map
  Restored-whole m r =
      sym (take_all (num_blocks * map_entry_sz) m (omega (arith, r.size)))
      ∙ r.bytes
      ∙ take_all (num_blocks * map_entry_sz) afs_map (omega arith)

  -- With rounds enough for the entries that are left, the loops meet at the last entry.
  fill-map_blocks :
      (rounds : ℕ) (w : ℕ) (m : List ℕ)
      → w ≤ num_blocks
      → num_blocks ≤ w + rounds * num_map_entries_per_block
      → Restored w m
      → ((map_blocks_from config hash_sha512 afs_map rounds w).1 ≡ num_blocks)
        × (fill_from config (map_blocks_from config hash_sha512 afs_map rounds w).0 m w
            ≡ (afs_map, num_blocks))
  unfolding map_blocks_from fill_from
  fill-map_blocks zero w m within enough r =
      let e : w ≡ num_blocks = omega arith in (e, rw e (rw (Restored-whole m (rw e at r)) refl))
  fill-map_blocks (suc rounds) w m within enough r =
      let (a, b, c, d) = entries_next_lem sized w within in
      let step = fill_entries-Restored w m within r in
      let next = entries_next_cases sized w within in
      elim (Bool-cases (leb (entries_left config w) num_map_entries_per_block)) [
        | inl last ↦
            let e : w + entries_next config w ≡ num_blocks = next.0 last in
            let ended =
              fill-map_blocks rounds (w + entries_next config w)
                (fill_entries config m w (map_block config hash_sha512 afs_map w)) a (omega arith)
                step in
            let filled =
              Restored-whole (fill_entries config m w (map_block config hash_sha512 afs_map w))
                (rw e at step) in
            rw (d, last) (ended.0, rw (filled, e) refl)
        | inr more ↦
            let e = next.1 more in
            rw (d, more)
              (fill-map_blocks rounds (w + entries_next config w)
                (fill_entries config m w (map_block config hash_sha512 afs_map w)) a (omega arith)
                step)
      ]

  pub fill-create_map_blocks :
      (memory : List ℕ)
      → num_map_blocks < 2 ^ 20
      → length memory ≡ length afs_map
      → (blocks : List (List ℕ)) × (afs_create_map_blocks config hash_sha512 true afs_map
          ≡ done (ok blocks))
        × (fill_from config blocks memory 0 ≡ (afs_map, num_blocks))
  unfolding afs_create_map_blocks
  fill-create_map_blocks memory few same =
      let (e, f) =
        fill-map_blocks num_map_blocks 0 memory (omega arith) (omega (arith, sized.roomy)) (record {
          bytes = let z : 0 * map_entry_sz ≡ 0 = omega arith in rw z refl;
          size = same;
        }) in
      let fits : ltb (4096 * num_map_blocks) (2 ^ 32) ≡ true = ground arith in
      let t : (num_blocks == num_blocks) ≡ true = ground arith in (_, rw (fits, e, t) refl, f)

  -- Blocks are made only where there are fewer than 2 ^ 20 of them.
  pub created-few :
      (blocks : List (List ℕ))
      → afs_create_map_blocks config hash_sha512 true afs_map ≡ done (ok blocks)
      → num_map_blocks < 2 ^ 20
  unfolding afs_create_map_blocks
  created-few blocks made = elim (Bool-cases (ltb (4096 * num_map_blocks) (2 ^ 32))) [
    | inl fits ↦ ground arith
    | inr wraps ↦ let e = rw wraps at made in absurd cc
  ]
