-- ===== src/Metadata/Pointers/Linked.antt =====
-- The chain of pointer blocks that `write_ptr_blocks` of src/dm_afs_metadata.c leaves on the device.
use artifice.Base.{
  ℕ, ◌+◌, ◌^◌, ◌≤◌, ◌<◌, ◌≡◌, ◌⊎◌, refl, sym, ap, ◌∙◌, arith, inl, inr, Bool, true, false,
  Bool-cases, ◌==◌, List, [], ◌∷◌, length, length-take, take, drop, slice, memcpy,
  slice-memcpy_after, slice-memcpy_before, length-memcpy, le32_at, le32_bytes, le32_at-slice,
  le32_at-le32_bytes, ok, err, enospc, enomem, pending, done, Outcome,
}
use artifice.Allocation.{AllocationVector, PassiveFs, invalid_block, acquire_block}
use artifice.Allocation.Laws.{Ready}
use artifice.Allocation.Acquire.{IsUsable, Took, acquire_block_lem}
use artifice.Kernel.{BitOps, Device}
use artifice.Metadata.Pointers.{Progress, choose, write_block}
use artifice.Metadata.Pointers.Chain.{
  seal_block, Chained, chained, link, before_rest, write_chain, behind_page, chain_on, read_chain,
}
use artifice.Metadata.Pointers.Filling.{Keeps}
use artifice.Metadata.Pointers.Stored.{
  IsDistinct, ArePages, Kept, Kept-before, Kept-now, still_used, near, write_block-done,
  write_block-refused,
}

-- `hash_sha1` gives at least the bytes that are stored.
abbrev pub IsLong : (List ℕ → List ℕ) → Type 0
IsLong hash_sha1 = (xs : List ℕ) → 16 ≤ length (hash_sha1 xs)

seal_block_lem :
    (hash_sha1 : List ℕ → List ℕ) (page : List ℕ) (next : ℕ)
    → IsLong hash_sha1
    → length page ≡ 4096
    → next < 2 ^ 32
    → (length (seal_block hash_sha1 page next) ≡ 4096)
      × (le32_at (seal_block hash_sha1 page next) 4092 ≡ next)
      × (slice (seal_block hash_sha1 page next) 16 4076 ≡ slice page 16 4076)
unfolding seal_block le32_bytes
seal_block_lem hash_sha1 page next long size small =
    let linked = memcpy page 4092 (le32_bytes next) in
    let header = take 16 (hash_sha1 (drop 16 linked)) in
    let len : length linked ≡ 4096 =
      length-memcpy page 4092 (le32_bytes next) (omega arith) ∙ size in
    let h : length header ≤ 16 =
      let q = length-take 16 (hash_sha1 (drop 16 linked)) in omega (arith, q) in
    let after = slice-memcpy_after linked 0 header 4092 4 (omega arith) (omega arith) in
    (
      length-memcpy linked 0 header (omega arith) ∙ len,
      le32_at-slice (memcpy linked 0 header) 4092
          ∙ ap (λ x. le32_at x 0) after
          ∙ sym (le32_at-slice linked 4092)
          ∙ le32_at-le32_bytes page 4092 next (omega arith) small,
      slice-memcpy_after linked 0 header 16 4076 (omega arith) (omega arith)
          ∙ slice-memcpy_before page 4092 (le32_bytes next) 16 4076 (omega arith) (omega arith),
    )

-- The pages are the pointer blocks but for their hashes and next pointers.
abbrev pub Alike : List (List ℕ) → List (List ℕ) → Type 0
Alike [] [] = Unit {0}
Alike (page ∷ pages) (page' ∷ pages') =
    (slice page' 16 4076 ≡ slice page 16 4076) × Alike pages pages'
Alike _ _ = ⊥

module _ (ops : BitOps) (device : Device) (fs : PassiveFs) (has_bio : ℕ → Bool) {n : ℕ}
    (u : IsUsable n fs) (d : IsDistinct fs) where
  open ops use {Memory}
  open device use {Disk}

  -- Each page is kept in a block, which the page before it names, and the last names none.
  abbrev pub IsChain : ℕ → List (List ℕ) → Progress Memory Disk → Type 0
  IsChain first [] s = first ≡ invalid_block
  IsChain first (page ∷ pages) s =
      Kept ops device fs has_bio first page s × IsChain (le32_at page 4092) pages s

  IsChain-later :
      (first : ℕ) (pages : List (List ℕ)) (s s' : Progress Memory Disk)
      → Keeps ops device fs has_bio u d s s'
      → IsChain first pages s
      → IsChain first pages s'
  IsChain-later first [] s s' k h = h
  IsChain-later first (page ∷ pages) s s' k h =
      (k first page h.0, IsChain-later (le32_at page 4092) pages s s' k h.1)

  IsChain-small :
      (first : ℕ) (pages : List (List ℕ)) (s : Progress Memory Disk)
      → IsChain first pages s
      → first < 2 ^ 32
  IsChain-small first [] s h = omega (arith, h)
  IsChain-small first (page ∷ pages) s h =
      let q = d.below h.0.position first h.0.names in omega (arith, q)

  -- How a loop ends: `Good` where it succeeds, and what was kept is kept still.
  pub record Ends (Good : Chained ops device fs has_bio → Type 0) (s : Progress Memory Disk)
      (r : Chained ops device fs has_bio) : Type 0 where
    pub ready : Ready ops n r.3.vector
    pub keeps : Keeps ops device fs has_bio u d s r.3
    pub ends : (r.0 ≡ ok tt) × Good r ⊎ (r.0 ≡ err enospc) ⊎ (r.0 ≡ err enomem)

  abbrev pub Goes :
      (Chained ops device fs has_bio → Type 0)
      → Progress Memory Disk
      → Outcome (Chained ops device fs has_bio)
      → Type 0
  Goes Good s o = (o ≡ pending) ⊎ (r : Chained ops device fs has_bio) × (o ≡ done r) × Ends Good s r

  module _ (page : List ℕ) (pages : List (List ℕ)) (s : Progress Memory Disk)
      (ready : Ready ops n s.vector) (len : length page ≡ 4096) where
    abbrev IsFirst : Chained ops device fs has_bio → Type 0
    IsFirst r = Kept ops device fs has_bio r.1 page r.3 × (r.2 ≡ page ∷ pages)

    link_written :
        (b : ℕ) (v : AllocationVector Memory) (draws : List ℕ)
        → Took ops n fs s.vector b v
        → Goes IsFirst s (
            chained ops device fs has_bio b
              (page ∷ pages)
              (write_block ops device fs has_bio page b v draws s))
    unfolding chained
    link_written b v draws t = elim (Bool-cases (has_bio s.blocks_written)) [
      | inl bio ↦ rw (write_block-done ops device fs has_bio u d 0 [] page pages s b v draws bio) (
          inr (
            _,
            refl,
            record {
              ready = t.ready;
              keeps = λ b' pg k.
                  Kept-before ops device fs has_bio u d b' b pg page s v draws
                    (s.blocks_written + 1) t len k;
              ends = inl (
                refl,
                (
                  Kept-now ops device fs has_bio u d b page s v draws (s.blocks_written + 1) t len,
                  refl,
                ),
              );
            },
          ))
      | inr refused ↦
          rw (write_block-refused ops device fs has_bio u d 0 [] page pages s b v draws refused) (
            inr (
              _,
              refl,
              record {
                ready = t.ready;
                keeps = λ b' pg k. record {
                  position = k.position;
                  inside = k.inside;
                  names = k.names;
                  used = still_used ops device fs has_bio u d b k.position s.vector v t k.used;
                  holds = k.holds;
                };
                ends = inr (inr refl);
              },
            ))
    ]

    link_lem : Goes IsFirst s (link ops device fs has_bio page pages s)
    unfolding link choose
    link_lem = elim (acquire_block_lem ops u s.vector ready s.draws) [
      | inl (stuck, _) ↦ inl (rw (link, choose, stuck) refl)
      | inr ((b, v, draws), e, inr (z, same)) ↦
          let e' : acquire_block ops fs s.vector s.draws ≡ done (invalid_block, v, draws) =
            rw z at e in
          rw (link, choose, e')
            (inr (
              _,
              refl,
              record {
                ready = rw same ready;
                keeps = λ b' pg k. record {
                  position = k.position;
                  inside = k.inside;
                  names = k.names;
                  used = rw same k.used;
                  holds = k.holds;
                };
                ends = inr (inl refl);
              },
            ))
      | inr ((b, v, draws), e, inl t) ↦
          let valid : (b == invalid_block) ≡ false =
            let low = d.below t.position b t.names in ground arith in
          rw (link, choose, e, valid) (link_written b v draws t)
    ]

  module _ (hash_sha1 : List ℕ → List ℕ) (long : IsLong hash_sha1) where
    abbrev pub IsLinked : List (List ℕ) → Chained ops device fs has_bio → Type 0
    IsLinked pages r = IsChain r.1 r.2 r.3 × Alike pages r.2

    -- A round, behind what the rest does.
    before_rest_lem :
        (page : List ℕ) (pages : List (List ℕ)) (s : Progress Memory Disk)
        (r : Chained ops device fs has_bio)
        → length page ≡ 4096
        → Ends (IsLinked pages) s r
        → Goes
            (IsLinked (page ∷ pages))
            s
            (before_rest ops device fs has_bio hash_sha1 page (done r))
    unfolding before_rest
    before_rest_lem page pages s (ok _, first, pages', s') len rest = elim rest.ends [
      | inl (fine, (chain, alike)) ↦
          let (size, next, same) =
            seal_block_lem hash_sha1 page first long len (IsChain-small first pages' s' chain) in
          elim (link_lem (seal_block hash_sha1 page first) pages' s' rest.ready size) [
            | inl stuck ↦ inl stuck
            | inr (r, run, e) ↦ inr (
              r,
              run,
              record {
                ready = e.ready;
                keeps = λ b pg k. e.keeps b pg (rest.keeps b pg k);
                ends = elim e.ends [
                  | inr bad ↦ inr bad
                  | inl (good, (here, list)) ↦ inl (
                    good,
                    rw list (
                      (here, rw next (IsChain-later first pages' s' r.3 e.keeps chain)),
                      (same, alike),
                    ),
                  )
                ];
              },
            )
          ]
      | inr (inl full) ↦ absurd cc
      | inr (inr short) ↦ absurd cc
    ]
    before_rest_lem page pages s (err x, first, pages', s') len rest = inr (
      _,
      refl,
      record {
        ready = rest.ready;
        keeps = rest.keeps;
        ends = elim rest.ends [ inl (fine, _) ↦ absurd cc | inr bad ↦ inr bad ];
      },
    )

    pub write_chain_ends :
        (pages : List (List ℕ)) (s : Progress Memory Disk)
        → ArePages pages
        → Ready ops n s.vector
        → Goes (IsLinked pages) s (write_chain ops device fs has_bio hash_sha1 pages s)
    unfolding write_chain
    write_chain_ends [] s p ready =
        inr (_, refl, record { ready = ready; keeps = λ b pg k. k; ends = inl (refl, (refl, tt)) })
    write_chain_ends (page ∷ pages) s (len, p) ready = elim (write_chain_ends pages s p ready) [
      | inl stuck ↦ inl (rw (write_chain, stuck) refl)
      | inr (r, run, e) ↦ rw (write_chain, run) (before_rest_lem page pages s r len e)
    ]

  -- Going from block to block reads the pages of a chain.
  pub read_chain_lem :
      (first : ℕ) (pages : List (List ℕ)) (s : Progress Memory Disk)
      → IsChain first pages s
      → read_chain ops device fs (λ _. true) (length pages) first s.disk ≡ (ok tt, pages)
  unfolding read_chain
  read_chain_lem first [] s h = refl
  read_chain_lem first (page ∷ pages) s (k, h) = rw (near ops device fs has_bio u d) (
      ap
        (λ r.
          chain_on ops device fs (λ _. true) r
            (λ next. read_chain ops device fs (λ _. true) (length pages) next s.disk))
        (k.holds [])
      ∙ ap (behind_page ops device fs (λ _. true) page)
          (read_chain_lem (le32_at page 4092) pages s h))
