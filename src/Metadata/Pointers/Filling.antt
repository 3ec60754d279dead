-- ===== src/Metadata/Pointers/Filling.antt =====
-- The loops of `write_map_blocks` of src/dm_afs_metadata.c over all pointers: what is stored at the end,
-- and how they may end otherwise.
use artifice.Base.{
  ℕ, suc, ◌+◌, ◌≡◌, ◌⊎◌, refl, ◌∙◌, ap, arith, inl, inr, Bool, true, false, Bool-cases, ◌==◌,
  enospc, enomem, ok, err, pending, done, List, [], ◌∷◌, length, drop,
}
use artifice.Kernel.{BitOps, Device}
use artifice.Allocation.{AllocationVector, PassiveFs, invalid_block, acquire_block}
use artifice.Allocation.Laws.{Ready}
use artifice.Allocation.Acquire.{IsUsable, Took, Acquired, acquire_block_lem}
use artifice.Metadata.Pointers.{Progress, Filled, behind, fill_pointers}
use artifice.Metadata.Pointers.Stored.{
  IsDistinct, ArePages, Kept, Stored, Kept-before, Kept-now, written, still_used, fill-pending,
  fill-full, fill-written, fill-refused,
}

module _ (ops : BitOps) (device : Device) (fs : PassiveFs) (has_bio : ℕ → Bool) {n : ℕ}
    (u : IsUsable n fs) (d : IsDistinct fs) where
  open ops use {Memory}
  open device use {Disk}

  abbrev pub Keeps : Progress Memory Disk → Progress Memory Disk → Type 0
  Keeps s s' =
      (b : ℕ) (page : List ℕ)
      → Kept ops device fs has_bio b page s
      → Kept ops device fs has_bio b page s'

  pub Stored-later :
      (bs : List ℕ) (pages : List (List ℕ)) (s s' : Progress Memory Disk)
      → Keeps s s'
      → Stored ops device fs has_bio bs pages s
      → Stored ops device fs has_bio bs pages s'
  Stored-later [] pages s s' k h = tt
  Stored-later (b ∷ bs) [] s s' k h = tt
  Stored-later (b ∷ bs) (page ∷ pages) s s' k h = (k b page h.0, Stored-later bs pages s s' k h.1)

  -- How the loop over an array of pointers ends: what was kept is kept still, and either every page is
  -- stored as far as there are pointers, and the others are left, or it failed with -ENOSPC or -ENOMEM.
  pub record After (pointers : List ℕ) (pages : List (List ℕ)) (s : Progress Memory Disk)
      (r : Filled ops device fs has_bio) : Type 0 where
    pub ready : Ready ops n r.3.vector
    pub keeps : Keeps s r.3
    pub ends :
        (r.0 ≡ ok tt)
          × Stored ops device fs has_bio r.1 pages r.3
          × (length r.1 ≡ length pointers)
          × (r.2 ≡ drop (length pointers) pages)
        ⊎ (r.0 ≡ err enospc)
        ⊎ (r.0 ≡ err enomem)

  abbrev pub Goes : List ℕ → List (List ℕ) → Progress Memory Disk → Type 0
  Goes pointers pages s =
      (fill_pointers ops device fs has_bio false pointers pages s ≡ pending)
      ⊎ (r : Filled ops device fs has_bio) × (fill_pointers ops device fs has_bio false pointers
            pages s
          ≡ done r)
        × After pointers pages s r

  -- One round, with what the rest does.
  module _ (pointer : ℕ) (pointers : List ℕ) (page : List ℕ) (pages : List (List ℕ))
      (s : Progress Memory Disk) (ready : Ready ops n s.vector) (len : length page ≡ 4096) where
    round_full :
        (v : AllocationVector Memory) (draws : List ℕ)
        → acquire_block ops fs s.vector s.draws ≡ done (invalid_block, v, draws)
        → v ≡ s.vector
        → Goes (pointer ∷ pointers) (page ∷ pages) s
    round_full v draws e same = inr (
      _,
      fill-full ops device fs has_bio u d pointer pointers page pages s v draws e,
      record {
        ready = rw same ready;
        keeps = λ b pg k. record {
          position = k.position;
          inside = k.inside;
          names = k.names;
          used = rw same k.used;
          holds = k.holds;
        };
        ends = inr (inl refl);
      },
    )

    round_refused :
        (b : ℕ) (v : AllocationVector Memory) (draws : List ℕ)
        → acquire_block ops fs s.vector s.draws ≡ done (b, v, draws)
        → Took ops n fs s.vector b v
        → (b == invalid_block) ≡ false
        → has_bio s.blocks_written ≡ false
        → Goes (pointer ∷ pointers) (page ∷ pages) s
    round_refused b v draws e t valid bio = inr (
      _,
      fill-refused ops device fs has_bio u d pointer pointers page pages s b v draws e valid bio,
      record {
        ready = t.ready;
        keeps = λ b' pg k. record {
          position = k.position;
          inside = k.inside;
          names = k.names;
          used = still_used ops device fs has_bio u d b k.position s.vector v t k.used;
          holds = k.holds;
        };
        ends = inr (inr refl);
      },
    )

    round_write :
        (b : ℕ) (v : AllocationVector Memory) (draws : List ℕ)
        → acquire_block ops fs s.vector s.draws ≡ done (b, v, draws)
        → Took ops n fs s.vector b v
        → (b == invalid_block) ≡ false
        → has_bio s.blocks_written ≡ true
        → Goes pointers pages (written ops device fs has_bio u d s b page v draws)
        → Goes (pointer ∷ pointers) (page ∷ pages) s
    unfolding behind
    round_write b v draws e t valid bio (inl stuck) = inl (
        fill-written ops device fs has_bio u d pointer pointers page pages s b v draws e valid bio
        ∙ ap (behind ops device fs has_bio b) stuck)
    round_write b v draws e t valid bio (inr (r, run, rest)) =
        let w = s.blocks_written + 1 in
        inr (
          _,
          fill-written ops device fs has_bio u d pointer pointers page pages s b v draws e valid bio
              ∙ ap (behind ops device fs has_bio b) run,
          record {
            ready = rest.ready;
            keeps = λ b' pg k.
                rest.keeps b' pg
                  (Kept-before ops device fs has_bio u d b' b pg page s v draws w t len k);
            ends = elim rest.ends [
              | inl (good, stored, long, left) ↦ inl (
                good,
                (
                  rest.keeps b page (Kept-now ops device fs has_bio u d b page s v draws w t len),
                  stored,
                ),
                ap suc long,
                left,
              )
              | inr bad ↦ inr bad
            ];
          },
        )

    -- What the acquired block is decides how the round goes.
    round-Acquired :
        (r : ℕ × AllocationVector Memory × List ℕ)
        → acquire_block ops fs s.vector s.draws ≡ done r
        → Acquired ops u s.vector ready r
        → ((s' : Progress Memory Disk) → Ready ops n s'.vector → Goes pointers pages s')
        → Goes (pointer ∷ pointers) (page ∷ pages) s
    round-Acquired (b, v, draws) e (inr (z, same)) rest = round_full v draws (rw z at e) same
    round-Acquired (b, v, draws) e (inl t) rest =
        let valid : (b == invalid_block) ≡ false =
          let low = d.below t.position b t.names in ground arith in
        elim (Bool-cases (has_bio s.blocks_written)) [
          | inl bio ↦ round_write b v draws e t valid bio (rest _ t.ready)
          | inr bio ↦ round_refused b v draws e t valid bio
        ]

  pub fill_pointers_lem :
      (pointers : List ℕ) (pages : List (List ℕ)) (s : Progress Memory Disk)
      → ArePages pages
      → Ready ops n s.vector
      → Goes pointers pages s
  unfolding fill_pointers
  fill_pointers_lem [] pages s p ready =
      inr
        (_, refl, record { ready = ready; keeps = λ b pg k. k; ends = inl (refl, tt, refl, refl) })
  fill_pointers_lem (pointer ∷ pointers) [] s p ready =
      inr
        (_, refl, record { ready = ready; keeps = λ b pg k. k; ends = inl (refl, tt, refl, refl) })
  fill_pointers_lem (pointer ∷ pointers) (page ∷ pages) s (len, p) ready =
      elim (acquire_block_lem ops u s.vector ready s.draws) [
        | inl (stuck, _) ↦
            inl (fill-pending ops device fs has_bio u d pointer pointers page pages s stuck)
        | inr (r, e, k) ↦
            round-Acquired pointer pointers page pages s ready len r e k
              (λ s' ready'. fill_pointers_lem pointers pages s' p ready')
      ]
