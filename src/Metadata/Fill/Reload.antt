-- ===== src/Metadata/Fill/Reload.antt =====
-- The map that `afs_fill_map` of src/dm_afs_metadata.c reads at the pointers of the super block, after
-- `afs_create_map_blocks` and `write_map_blocks`.
use artifice.Base.{
  Outcome, fault, pending, done, ℕ, ◌+◌, ◌*◌, ◌^◌, ◌%◌, ◌<◌, ◌≡◌, refl, sym, ◌∙◌, ap, arith, inl,
  inr, Bool, true, Bool-cases, leb, Result, ok, err, List, [], ◌∷◌, ◌++◌, length, map,
}
use artifice.Kernel.{BitOps, Device}
use artifice.Allocation.{PassiveFs}
use artifice.Format.{Config, sha512_size}
use artifice.Metadata.Blocks.{
  entries_left, entries_next, fill_entries, fill_from, afs_create_map_blocks,
}
use artifice.Metadata.Blocks.Fits.{IsSized, entries_next_lem, entries_next_cases}
use artifice.Metadata.Blocks.Restore.{fill-create_map_blocks, created-few}
use artifice.Io.{read_page}
use artifice.Metadata.Pointers.{Progress}
use artifice.Metadata.Pointers.Stored.{Stored}
use artifice.Metadata.Fill.{Reading, fill_from_sb, page_at, fill_from_sb-fill_from}

map-append_lists : (f : ℕ → List ℕ) (xs ys : List ℕ) → map f (xs ++ ys) ≡ map f xs ++ map f ys
map-append_lists f [] ys = refl
map-append_lists f (x ∷ xs) ys = ap (λ k. f x ∷ k) (map-append_lists f xs ys)

module _ {config : Config} (sized : IsSized config) where
  open config use {num_map_entries_per_block, num_blocks}

  -- Pages behind the last entry are not looked at.
  fill_from-append :
      (pages more : List (List ℕ)) (m : List ℕ) (w : ℕ)
      → w < num_blocks
      → (fill_from config pages m w).1 ≡ num_blocks
      → fill_from config (pages ++ more) m w ≡ fill_from config pages m w
  unfolding fill_from
  fill_from-append [] more m w h e = absurd (omega arith)
  fill_from-append (page ∷ pages) more m w h e =
      let (a, b, c, d) = entries_next_lem sized w (omega arith) in
      elim (Bool-cases (leb (entries_left config w) num_map_entries_per_block)) [
        | inl last ↦ rw last refl
        | inr beyond ↦
            rw (beyond, d)
              (fill_from-append pages more (fill_entries config m w page)
                (w + entries_next config w)
                (let n = (entries_next_cases sized w (omega arith)).1 beyond in ground arith)
                (rw (beyond, d) at e))
      ]

module _ (config : Config) (ops : BitOps) (device : Device) (fs : PassiveFs)
    (has_bio : ℕ → Bool) where
  open ops use {Memory}
  open device use {Disk}

  Stored-pages :
      (bs : List ℕ) (pages : List (List ℕ)) (s : Progress Memory Disk)
      → fs.data_start_off < 2 ^ 31
      → length bs ≡ length pages
      → Stored ops device fs has_bio bs pages s
      → map (page_at config ops device fs s.disk) bs ≡ pages
  unfolding read_page
  Stored-pages [] [] s near len h = refl
  Stored-pages [] (page ∷ pages) s near len h = absurd (omega arith)
  Stored-pages (b ∷ bs) [] s near len h = absurd (omega arith)
  Stored-pages (b ∷ bs) (page ∷ pages) s near len (k, ks) =
      let e : fs.data_start_off % 2 ^ 32 ≡ fs.data_start_off = omega arith in
      let one : page_at config ops device fs s.disk b ≡ page = rw e (ap (λ x. x.1) (k.holds [])) in
      let rest = Stored-pages bs pages s near (omega arith) ks in λ i. one i ∷ rest i

abbrev pages_of : Outcome (Result (List (List ℕ))) → List (List ℕ)
pages_of (done (ok pages)) = pages
pages_of (done (err e)) = []
pages_of fault = []
pages_of pending = []

module _ {config : Config} (sized : IsSized config) (hash_sha512 : List ℕ → List ℕ)
    (digest : (bytes : List ℕ) → length (hash_sha512 bytes) ≡ sha512_size) (afs_map : List ℕ)
    (whole : length afs_map ≡ config.num_blocks * config.map_entry_sz) (ops : BitOps)
    (device : Device) (fs : PassiveFs) (has_bio : ℕ → Bool) where
  open config use {num_blocks}
  open ops use {Memory}
  open device use {Disk}

  -- Where the map blocks that `afs_create_map_blocks` made of a map are stored at the first pointers of
  -- the super block, and with memory for the reads, the loop over these pointers succeeds, reads every
  -- entry, and leaves the map in memory of its size, whatever that held and whatever the other pointers
  -- are.
  pub fill_from_sb-afs_create_map_blocks :
      (blocks : List (List ℕ)) (pointers others : List ℕ) (s : Progress Memory Disk)
      (r : Reading Memory)
      → 0 < num_blocks
      → afs_create_map_blocks config hash_sha512 true afs_map ≡ done (ok blocks)
      → fs.data_start_off < 2 ^ 31
      → length pointers ≡ length blocks
      → Stored ops device fs has_bio pointers blocks s
      → r.entries_read ≡ 0
      → length r.afs_map ≡ length afs_map
      → ((fill_from_sb config ops device fs (λ _. true) s.disk (pointers ++ others) r).0 ≡ ok tt)
        × ((fill_from_sb config ops device fs (λ _. true) s.disk (pointers ++ others) r).1.afs_map
            ≡ afs_map)
        × ((fill_from_sb config ops device fs
              (λ _. true)
              s.disk
              (pointers ++ others)
              r).1.entries_read
            ≡ num_blocks)
  fill_from_sb-afs_create_map_blocks blocks pointers others s r some_block made near len stored
        start same =
      let (blocks', made', restored) =
        fill-create_map_blocks sized hash_sha512 digest afs_map whole r.afs_map
          (created-few sized hash_sha512 digest afs_map whole blocks made) same in
      let one : blocks' ≡ blocks = ap pages_of (sym made' ∙ made) in
      let full : fill_from config blocks r.afs_map 0 ≡ (afs_map, num_blocks) = rw one at restored in
      let (good, run) = fill_from_sb-fill_from config ops device fs s.disk (pointers ++ others) r in
      let read = page_at config ops device fs s.disk in
      let pages : map read (pointers ++ others) ≡ blocks ++ map read others =
        map-append_lists read pointers others
        ∙ ap (λ k. k ++ map read others)
            (Stored-pages config ops device fs has_bio pointers blocks s near len stored) in
      let all =
        run
        ∙ ap (λ k. fill_from config k r.afs_map r.entries_read) pages
        ∙ ap (λ k. fill_from config (blocks ++ map read others) r.afs_map k) start
        ∙ fill_from-append sized blocks (map read others) r.afs_map 0 some_block
            (ap (λ k. k.1) full)
        ∙ full in
      (good, ap (λ k. k.0) all, ap (λ k. k.1) all)
