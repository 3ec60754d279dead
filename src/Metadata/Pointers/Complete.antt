-- ===== src/Metadata/Pointers/Complete.antt =====
-- `write_map_blocks` of src/dm_afs_metadata.c as a whole.
use artifice.Base.{
  ℕ, zero, suc, ◌+◌, ◌≡◌, ◌⊎◌, refl, sym, ◌∙◌, ap, inl, inr, Bool, false, Errno, enospc, enomem, ok,
  err, pending, done, List, [], ◌∷◌, length, drop, drop-drop,
}
use artifice.Kernel.{BitOps, Device}
use artifice.Allocation.{PassiveFs}
use artifice.Allocation.Laws.{Ready}
use artifice.Allocation.Acquire.{IsUsable}
use artifice.Metadata.Pointers.{
  Progress, Filled, Arrays, fill_pointers, behind_array, fill_arrays, write_map_blocks,
}
use artifice.Metadata.Pointers.Stored.{IsDistinct, ArePages, Stored}
use artifice.Metadata.Pointers.Filling.{Keeps, Stored-later, After, fill_pointers_lem}

-- How many pointers there are.
abbrev pub slots : List (List ℕ) → ℕ
slots [] = 0
slots (pointers ∷ arrays) = length pointers + slots arrays

-- Arrays of the same lengths.
abbrev pub SameLengths : List (List ℕ) → List (List ℕ) → Type 0
SameLengths [] [] = Unit {0}
SameLengths (xs ∷ xss) (ys ∷ yss) = (length ys ≡ length xs) × SameLengths xss yss
SameLengths _ _ = ⊥

ArePages-drop : (k : ℕ) (pages : List (List ℕ)) → ArePages pages → ArePages (drop k pages)
ArePages-drop zero pages p = p
ArePages-drop (suc k) [] p = tt
ArePages-drop (suc k) (page ∷ pages) p = ArePages-drop k pages p.1

module _ (ops : BitOps) (device : Device) (fs : PassiveFs) (has_bio : ℕ → Bool) {n : ℕ}
    (u : IsUsable n fs) (d : IsDistinct fs) where
  open ops use {Memory}
  open device use {Disk}

  -- Each page is kept at its pointer, one array of pointers after the other.
  abbrev pub StoredIn : List (List ℕ) → List (List ℕ) → Progress Memory Disk → Type 0
  StoredIn [] pages s = Unit {0}
  StoredIn (bs ∷ arrays) pages s =
      Stored ops device fs has_bio bs pages s × StoredIn arrays (drop (length bs) pages) s

  -- How `write_map_blocks` ends: what was kept before is kept still; and every page is stored as far as
  -- there are pointers, or it failed with -ENOSPC or -ENOMEM.
  pub record Written (arrays pages : List (List ℕ)) (s : Progress Memory Disk)
      (r : Arrays ops device fs has_bio) : Type 0 where
    pub ready : Ready ops n r.3.vector
    pub keeps : Keeps ops device fs has_bio u d s r.3
    pub lengths : r.0 ≡ ok tt → SameLengths arrays r.1
    pub ends :
        (r.0 ≡ ok tt) × StoredIn r.1 pages r.3 × (r.2 ≡ drop (slots arrays) pages)
        ⊎ (r.0 ≡ err enospc)
        ⊎ (r.0 ≡ err enomem)

  abbrev Ended : List (List ℕ) → List (List ℕ) → Progress Memory Disk → Type 0
  Ended arrays pages s =
      (fill_arrays ops device fs has_bio false arrays pages s ≡ pending)
      ⊎ (r : Arrays ops device fs has_bio) × (fill_arrays ops device fs has_bio false arrays pages s
          ≡ done r)
        × Written arrays pages s r

  module _ (pointers : List ℕ) (arrays pages : List (List ℕ)) (s : Progress Memory Disk) where
    arrays-good :
        (pointers' : List ℕ) (left : List (List ℕ)) (s' : Progress Memory Disk)
        → fill_pointers ops device fs has_bio false pointers pages s
          ≡ done (ok tt, pointers', left, s')
        → fill_arrays ops device fs has_bio false (pointers ∷ arrays) pages s
          ≡ behind_array ops device fs has_bio pointers'
              (fill_arrays ops device fs has_bio false arrays left s')
    unfolding fill_arrays
    arrays-good pointers' left s' e = rw (fill_arrays, e) refl

    arrays-bad :
        (r : Filled ops device fs has_bio) (error : Errno)
        → fill_pointers ops device fs has_bio false pointers pages s ≡ done r
        → r.0 ≡ err error
        → fill_arrays ops device fs has_bio false (pointers ∷ arrays) pages s
          ≡ done (err error, r.1 ∷ arrays, r.2, r.3)
    unfolding fill_arrays
    arrays-bad r error e bad = rw (fill_arrays, e, bad) refl

    -- An array that is filled, and what becomes of the others.
    array_good :
        (pointers' : List ℕ) (left : List (List ℕ)) (s' : Progress Memory Disk)
        → fill_pointers ops device fs has_bio false pointers pages s
          ≡ done (ok tt, pointers', left, s')
        → Keeps ops device fs has_bio u d s s'
        → Stored ops device fs has_bio pointers' pages s'
        → length pointers' ≡ length pointers
        → left ≡ drop (length pointers) pages
        → Ended arrays left s'
        → Ended (pointers ∷ arrays) pages s
    unfolding behind_array
    array_good pointers' left s' e keeps stored long l (inl stuck) =
        inl (
          arrays-good pointers' left s' e ∙ ap (behind_array ops device fs has_bio pointers') stuck)
    array_good pointers' left s' e keeps stored long l (inr (r, run, rest)) =
        let x : left ≡ drop (length pointers') pages = l ∙ ap (λ k. drop k pages) (sym long) in
        inr (
          (r.0, pointers' ∷ r.1, r.2, r.3),
          arrays-good pointers' left s' e ∙ ap (behind_array ops device fs has_bio pointers') run,
          record {
            ready = rest.ready;
            keeps = λ b page k. rest.keeps b page (keeps b page k);
            lengths = λ e'. (long, rest.lengths e');
            ends = elim rest.ends [
              | inr bad ↦ inr bad
              | inl (good, others, over) ↦ inl (
                good,
                (
                  Stored-later ops device fs has_bio u d pointers' pages s' r.3 rest.keeps stored,
                  rw x at others,
                ),
                over
                    ∙ ap (drop (slots arrays)) l
                    ∙ drop-drop (length pointers) (slots arrays) pages,
              )
            ];
          },
        )

    array_bad :
        (r : Filled ops device fs has_bio) (error : Errno)
        → fill_pointers ops device fs has_bio false pointers pages s ≡ done r
        → After ops device fs has_bio u d pointers pages s r
        → r.0 ≡ err error
        → (error ≡ enospc) ⊎ (error ≡ enomem)
        → Ended (pointers ∷ arrays) pages s
    array_bad r error e a bad which = inr (
      (err error, r.1 ∷ arrays, r.2, r.3),
      arrays-bad r error e bad,
      record {
        ready = a.ready;
        keeps = a.keeps;
        lengths = λ e'. absurd cc;
        ends = elim which [
          | inl full ↦ inr (inl (ap err full))
          | inr short ↦ inr (inr (ap err short))
        ];
      },
    )

    array_next :
        (r : Filled ops device fs has_bio)
        → fill_pointers ops device fs has_bio false pointers pages s ≡ done r
        → After ops device fs has_bio u d pointers pages s r
        → (Ready ops n r.3.vector → r.2 ≡ drop (length pointers) pages → Ended arrays r.2 r.3)
        → Ended (pointers ∷ arrays) pages s
    array_next r e a rest = elim a.ends [
      | inl (good, stored, long, left) ↦
          array_good r.1 r.2 r.3 (e ∙ ap (λ x. done (x, r.1, r.2, r.3)) good) a.keeps stored long
            left (rest a.ready left)
      | inr (inl full) ↦ array_bad r enospc e a full (inl refl)
      | inr (inr short) ↦ array_bad r enomem e a short (inr refl)
    ]

  fill_arrays_lem :
      (arrays pages : List (List ℕ)) (s : Progress Memory Disk)
      → ArePages pages
      → Ready ops n s.vector
      → Ended arrays pages s
  unfolding fill_arrays
  fill_arrays_lem [] pages s p ready = inr (
    (ok tt, [], pages, s),
    refl,
    record { ready = ready; keeps = λ b page k. k; lengths = λ e. tt; ends = inl (refl, tt, refl) },
  )
  fill_arrays_lem (pointers ∷ arrays) pages s p ready =
      elim (fill_pointers_lem ops device fs has_bio u d pointers pages s p ready) [
        | inl stuck ↦ inl (rw (fill_arrays, stuck) refl)
        | inr (r, e, a) ↦ array_next pointers arrays pages s r e a (λ ready' left.
            fill_arrays_lem arrays r.2 r.3 (rw left (ArePages-drop (length pointers) pages p))
              ready')
      ]

  -- With a usable free list that names each block once, all below 4 GiB, and map blocks of 4096 bytes,
  -- the first `write_map_blocks` of an instance never faults. Where the random numbers let it end, what
  -- was stored before in blocks in use is stored still, and it succeeds, or fails with -ENOSPC or -ENOMEM. Where it succeeds, reading at the pointers, first those of the super
  -- block and then those of the pointer blocks, gives the map blocks in order, as far as there are
  -- pointers, each in a block of the free list that is in use; and the arrays keep their lengths.
  pub write_map_blocks_lem :
      (map_block_ptrs : List ℕ) (ptr_blocks map_blocks : List (List ℕ)) (s : Progress Memory Disk)
      → ArePages map_blocks
      → Ready ops n s.vector
      → (write_map_blocks ops device fs has_bio false map_block_ptrs ptr_blocks map_blocks s
          ≡ pending)
        ⊎ (r : Arrays ops device fs has_bio) × (write_map_blocks ops device fs has_bio false
              map_block_ptrs ptr_blocks map_blocks s
            ≡ done r)
          × Written (map_block_ptrs ∷ ptr_blocks) map_blocks s r
  unfolding write_map_blocks
  write_map_blocks_lem map_block_ptrs ptr_blocks map_blocks s p ready =
      fill_arrays_lem (map_block_ptrs ∷ ptr_blocks) map_blocks s p ready
