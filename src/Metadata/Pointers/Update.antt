-- ===== src/Metadata/Pointers/Update.antt =====
-- `write_map_blocks` of src/dm_afs_metadata.c on an update: the map blocks go where they were.
use artifice.Base.{
  ℕ, ◌+◌, ◌≡◌, ◌⊎◌, refl, ◌∙◌, ap, inl, inr, Bool, true, Bool-cases, enomem, Result, ok, err, done,
  List, [], ◌∷◌,
}
use artifice.Kernel.{BitOps, Device}
use artifice.Allocation.{PassiveFs}
use artifice.Io.{transfer, afs_blkdev_io, write_page}
use artifice.Metadata.Pointers.{
  Progress, Filled, Arrays, choose, write_block, go_on, behind, fill_pointers, behind_array,
  fill_arrays, write_map_blocks,
}

module _ (ops : BitOps) (device : Device) (fs : PassiveFs) (has_bio : ℕ → Bool) where
  open ops use {Memory}
  open device use {Disk}

  -- Nothing is acquired.
  abbrev pub IsSame : Progress Memory Disk → Progress Memory Disk → Type 0
  IsSame s s' = (s'.vector ≡ s.vector) × (s'.draws ≡ s.draws)

  write_block-cases :
      (page : List ℕ) (b : ℕ) (s : Progress Memory Disk)
      → ((write_block ops device fs has_bio page b s.vector s.draws s).0 ≡ ok tt)
        ⊎ ((write_block ops device fs has_bio page b s.vector s.draws s).0 ≡ err enomem)
  unfolding write_block write_page afs_blkdev_io transfer
  write_block-cases page b s = elim (Bool-cases (has_bio s.blocks_written)) [
    | inl has ↦ inl (rw has refl)
    | inr not ↦ inr (rw not refl)
  ]

  abbrev HasPointers : List ℕ → List (List ℕ) → Progress Memory Disk → Type 0
  HasPointers pointers pages s =
      (r : Filled ops device fs has_bio) × (fill_pointers ops device fs has_bio true pointers pages
          s
        ≡ done r)
      × (r.1 ≡ pointers)
      × IsSame s r.3
      × ((r.0 ≡ ok tt) ⊎ (r.0 ≡ err enomem))

  round :
      (pointer : ℕ) (pointers page : List ℕ) (pages : List (List ℕ)) (s : Progress Memory Disk)
      → ((s' : Progress Memory Disk) → HasPointers pointers pages s')
      → HasPointers (pointer ∷ pointers) (page ∷ pages) s
  unfolding fill_pointers choose go_on behind
  round pointer pointers page pages s rest =
      go (write_block ops device fs has_bio page pointer s.vector s.draws s)
        (write_block-cases page pointer s) (unfold write_block in refl, unfold write_block in refl)
    where
      go :
          (w : Result (Unit {0}) × Progress Memory Disk)
          → (w.0 ≡ ok tt) ⊎ (w.0 ≡ err enomem)
          → IsSame s w.1
          → (r : Filled ops device fs has_bio) × (go_on ops device fs has_bio pointer pointers
                (page ∷ pages)
                (fill_pointers ops device fs has_bio true pointers pages)
                w
              ≡ done r)
            × (r.1 ≡ pointer ∷ pointers)
            × IsSame s r.3
            × ((r.0 ≡ ok tt) ⊎ (r.0 ≡ err enomem))
      go (err e, s') bad same = (_, refl, refl, same, bad)
      go (ok _, s') good (v, d) =
          let (r, run, kept, (v', d'), status) =
            rest (record s' { blocks_written = s'.blocks_written + 1 }) in
          (
            (r.0, pointer ∷ r.1, r.2, r.3),
            ap (behind ops device fs has_bio pointer) run,
            ap (λ x. pointer ∷ x) kept,
            (v' ∙ v, d' ∙ d),
            status,
          )

  fill_pointers-true :
      (pointers : List ℕ) (pages : List (List ℕ)) (s : Progress Memory Disk)
      → HasPointers pointers pages s
  unfolding fill_pointers
  fill_pointers-true [] pages s = (_, refl, refl, (refl, refl), inl refl)
  fill_pointers-true (pointer ∷ pointers) [] s = (_, refl, refl, (refl, refl), inl refl)
  fill_pointers-true (pointer ∷ pointers) (page ∷ pages) s =
      round pointer pointers page pages s (λ s'. fill_pointers-true pointers pages s')

  abbrev HasArrays : List (List ℕ) → List (List ℕ) → Progress Memory Disk → Type 0
  HasArrays arrays pages s =
      (r : Arrays ops device fs has_bio) × (fill_arrays ops device fs has_bio true arrays pages s
        ≡ done r)
      × (r.1 ≡ arrays)
      × IsSame s r.3
      × ((r.0 ≡ ok tt) ⊎ (r.0 ≡ err enomem))

  next_array :
      (pointers : List ℕ) (arrays pages : List (List ℕ)) (s : Progress Memory Disk)
      → ((left : List (List ℕ)) (s' : Progress Memory Disk) → HasArrays arrays left s')
      → HasPointers pointers pages s
      → HasArrays (pointers ∷ arrays) pages s
  unfolding fill_arrays behind_array
  next_array pointers arrays pages s rest ((err x, pointers', left, s'), e, kept, same, status) = (
    (err x, pointers' ∷ arrays, left, s'),
    rw (fill_arrays, e) refl,
    ap (λ p. p ∷ arrays) kept,
    same,
    status,
  )
  next_array pointers arrays pages s rest ((ok _, pointers', left, s'), e, kept, (v, d), status) =
      let (r, run, others, (v', d'), end) = rest left s' in
      (
        (r.0, pointers' ∷ r.1, r.2, r.3),
        rw (fill_arrays, e) (ap (behind_array ops device fs has_bio pointers') run),
        (λ i. kept i ∷ others i),
        (v' ∙ v, d' ∙ d),
        end,
      )

  fill_arrays-true :
      (arrays pages : List (List ℕ)) (s : Progress Memory Disk) → HasArrays arrays pages s
  unfolding fill_arrays
  fill_arrays-true [] pages s = (_, refl, refl, (refl, refl), inl refl)
  fill_arrays-true (pointers ∷ arrays) pages s =
      next_array pointers arrays pages s (λ left s'. fill_arrays-true arrays left s')
        (fill_pointers-true pointers pages s)

  -- An update ends, for all random numbers, with success or for want of memory. It changes no pointer,
  -- acquires no block and draws no random number.
  pub write_map_blocks-update :
      (map_block_ptrs : List ℕ) (ptr_blocks map_blocks : List (List ℕ)) (s : Progress Memory Disk)
      → (r : Arrays ops device fs has_bio) × (write_map_blocks ops device fs has_bio true
            map_block_ptrs ptr_blocks map_blocks s
          ≡ done r)
        × (r.1 ≡ map_block_ptrs ∷ ptr_blocks)
        × IsSame s r.3
        × ((r.0 ≡ ok tt) ⊎ (r.0 ≡ err enomem))
  unfolding write_map_blocks
  write_map_blocks-update map_block_ptrs ptr_blocks map_blocks s =
      fill_arrays-true (map_block_ptrs ∷ ptr_blocks) map_blocks s
