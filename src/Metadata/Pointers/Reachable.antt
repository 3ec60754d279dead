-- ===== src/Metadata/Pointers/Reachable.antt =====
-- `write_ptr_blocks` of src/dm_afs_metadata.c as a whole: what is reachable from the super block.
use artifice.Base.{
  ℕ, ◌≡◌, ◌⊎◌, refl, ◌∙◌, arith, inl, inr, Bool, true, List, [], ◌∷◌, length, length-replicate,
  replicate, map, ◌*◌, drop, length-memcpy, le32_bytes, ok, err, enospc, enomem, pending, done,
  Outcome,
}
use artifice.Allocation.{PassiveFs}
use artifice.Allocation.Laws.{Ready}
use artifice.Allocation.Acquire.{IsUsable}
use artifice.Kernel.{BitOps, Device}
use artifice.Metadata.Pointers.{Progress, Arrays}
use artifice.Metadata.Pointers.Chain.{
  Chained, read_chain, chain_behind, ptr_block_of, fields_of, write_ptr_blocks,
}
use artifice.Metadata.Pointers.Complete.{StoredIn, SameLengths, Written, write_map_blocks_lem}
use artifice.Metadata.Pointers.Filling.{Keeps, Stored-later}
use artifice.Metadata.Pointers.Stored.{IsDistinct, ArePages}
use artifice.Metadata.Pointers.Linked.{IsLong, Alike, write_chain_ends, read_chain_lem}

-- Pointer blocks with all their pointers.
abbrev pub AreFull : List (List ℕ) → Type 0
AreFull [] = Unit {0}
AreFull (pointers ∷ arrays) = (length pointers ≡ 1019) × AreFull arrays

length-fields_of : (pointers : List ℕ) → length (fields_of pointers) ≡ 4 * length pointers
unfolding fields_of le32_bytes
length-fields_of [] = refl
length-fields_of (pointer ∷ pointers) = omega (arith, length-fields_of pointers)

ptr_blocks-ArePages :
    (arrays arrays' : List (List ℕ))
    → AreFull arrays
    → SameLengths arrays arrays'
    → ArePages (map ptr_block_of arrays')
unfolding ptr_block_of
ptr_blocks-ArePages [] [] f l = tt
ptr_blocks-ArePages [] (xs ∷ xss) f l = absurd l
ptr_blocks-ArePages (xs ∷ xss) [] f l = absurd l
ptr_blocks-ArePages (xs ∷ xss) (ys ∷ yss) (size, f) (same, l) =
    let zeros = length-replicate {A = ℕ} 4096 0 in
    let q = length-fields_of ys in
    (
      length-memcpy (replicate 4096 0) 16 (fields_of ys) (omega (arith, zeros, q, same, size))
          ∙ zeros,
      ptr_blocks-ArePages xss yss f l,
    )

module _ (ops : BitOps) (device : Device) (fs : PassiveFs) (has_bio : ℕ → Bool) {n : ℕ}
    (u : IsUsable n fs) (d : IsDistinct fs) (hash_sha1 : List ℕ → List ℕ)
    (long : IsLong hash_sha1) where
  open ops use {Memory}
  open device use {Disk}

  StoredIn-later :
      (arrays pages : List (List ℕ)) (s s' : Progress Memory Disk)
      → Keeps ops device fs has_bio u d s s'
      → StoredIn ops device fs has_bio u d arrays pages s
      → StoredIn ops device fs has_bio u d arrays pages s'
  StoredIn-later [] pages s s' k h = tt
  StoredIn-later (bs ∷ arrays) pages s s' k (h, hs) = (
    Stored-later ops device fs has_bio u d bs pages s s' k h,
    StoredIn-later arrays (drop (length bs) pages) s s' k hs,
  )

  -- The map blocks are stored at the pointers of the super block and of the pointer blocks, and the
  -- chain of these, from the first one on, reads as they are but for hashes and next pointers.
  pub record IsReachable (map_block_ptrs : List ℕ) (ptr_blocks map_blocks : List (List ℕ))
      (r : List ℕ × Chained ops device fs has_bio) : Type 0 where
    pub arrays : List (List ℕ)
    pub lengths : SameLengths (map_block_ptrs ∷ ptr_blocks) (r.0 ∷ arrays)
    pub stored : StoredIn ops device fs has_bio u d (r.0 ∷ arrays) map_blocks r.1.3
    pub chain :
        read_chain ops device fs (λ _. true) (length r.1.2) r.1.1 r.1.3.disk ≡ (ok tt, r.1.2)
    pub alike : Alike (map ptr_block_of arrays) r.1.2

  abbrev pub Succeeds :
      List ℕ → List (List ℕ) → List (List ℕ) → List ℕ × Chained ops device fs has_bio → Type 0
  Succeeds map_block_ptrs ptr_blocks map_blocks r =
      (r.1.0 ≡ ok tt) × IsReachable map_block_ptrs ptr_blocks map_blocks r
      ⊎ (r.1.0 ≡ err enospc)
      ⊎ (r.1.0 ≡ err enomem)

  abbrev pub Writes :
      List ℕ
      → List (List ℕ)
      → List (List ℕ)
      → Outcome (List ℕ × Chained ops device fs has_bio)
      → Type 0
  Writes map_block_ptrs ptr_blocks map_blocks o =
      (o ≡ pending)
      ⊎ (r : List ℕ × Chained ops device fs has_bio) × (o ≡ done r)
        × Succeeds map_block_ptrs ptr_blocks map_blocks r

  module _ (map_block_ptrs : List ℕ) (ptr_blocks map_blocks : List (List ℕ))
      (s : Progress Memory Disk) (full : AreFull ptr_blocks) where
    chain_behind_lem :
        (r : Arrays ops device fs has_bio)
        → Written ops device fs has_bio u d (map_block_ptrs ∷ ptr_blocks) map_blocks s r
        → Writes map_block_ptrs ptr_blocks map_blocks
            (chain_behind ops device fs has_bio hash_sha1 (done r))
    unfolding chain_behind
    chain_behind_lem (ok _, [], left, s') w = absurd (w.lengths refl)
    chain_behind_lem (err e, [], left, s') w =
        inr (_, refl, elim w.ends [ inl (good, _, _) ↦ absurd cc | inr bad ↦ inr bad ])
    chain_behind_lem (err e, sb ∷ arrays, left, s') w =
        inr (_, refl, elim w.ends [ inl (good, _, _) ↦ absurd cc | inr bad ↦ inr bad ])
    chain_behind_lem (ok _, sb ∷ arrays, left, s') w = elim w.ends [
      | inr (inl bad) ↦ absurd cc
      | inr (inr bad) ↦ absurd cc
      | inl (good, stored, over) ↦
          let pages = map ptr_block_of arrays in
          elim (write_chain_ends ops device fs has_bio u d hash_sha1 long pages s'
            (ptr_blocks-ArePages ptr_blocks arrays full (w.lengths refl).1) w.ready) [
              | inl stuck ↦ inl (rw (chain_behind, stuck) refl)
              | inr (r, run, e) ↦ inr (
                (sb, r),
                rw (chain_behind, run) refl,
                elim e.ends [
                  | inr bad ↦ inr bad
                  | inl (fine, (linked, alike)) ↦ inl (
                    fine,
                    record {
                      arrays = arrays;
                      lengths = w.lengths refl;
                      stored = StoredIn-later (sb ∷ arrays) map_blocks s' r.3 e.keeps stored;
                      chain = read_chain_lem ops device fs has_bio u d r.1 r.2 r.3 linked;
                      alike = alike;
                    },
                  )
                ],
              )
            ]
    ]

    -- With a usable free list that names each block once, all below 4 GiB, map blocks of 4096 bytes,
    -- pointer blocks of 1019 pointers, and a hash of 16 bytes or more, `write_ptr_blocks` never faults.
    -- Where the random numbers let it end, it fails with -ENOSPC or -ENOMEM, or it succeeds, and everything is
    -- reachable from the super block: the super block and each pointer block have as many pointers as
    -- before, the map blocks are stored at these in their order, as far as there are pointers, and going
    -- from the first pointer block to the next one reads as many pointer blocks as there were, which hold
    -- these pointers and differ only in their hashes and next pointers.
    pub write_ptr_blocks_lem :
        ArePages map_blocks
        → Ready ops n s.vector
        → Writes map_block_ptrs ptr_blocks map_blocks (
            write_ptr_blocks ops device fs has_bio hash_sha1 map_block_ptrs ptr_blocks map_blocks s)
    unfolding write_ptr_blocks chain_behind
    write_ptr_blocks_lem p ready =
        elim (write_map_blocks_lem ops device fs has_bio u d map_block_ptrs ptr_blocks map_blocks s
          p ready) [
            | inl stuck ↦ inl (rw (write_ptr_blocks, stuck) refl)
            | inr (r, run, w) ↦ rw (write_ptr_blocks, run) (chain_behind_lem r w)
          ]
