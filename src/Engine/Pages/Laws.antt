-- ===== src/Engine/Pages/Laws.antt =====
-- The carrier pages of src/dm_afs_engine.c: reads after writes, and which completion goes on.
use artifice.Base.{
  ℕ, zero, suc, ◌+◌, ◌-◌, ◌^◌, ◌%◌, ◌≡◌, ◌≢◌, ◌≤◌, ◌<◌, ◌⊎◌, arith, refl, ap, sym, ◌∙◌, Bool, true,
  false, ◌==◌, List, [], ◌∷◌, ◌++◌, length, replicate, ok,
}
use artifice.Kernel.{Device}
use artifice.Allocation.{PassiveFs}
use artifice.Engine.Pages.{
  sector_num, dec_and_test, completions, write_pages, read_pages, before_pages,
}

-- The block is none of these.
abbrev pub Missing : ℕ → List ℕ → Type 0
Missing b [] = Unit
Missing b (c ∷ cs) = (b ≢ c) × Missing b cs

-- Different blocks, all below 1 TiB.
abbrev pub AreDistinct : List ℕ → Type 0
AreDistinct [] = Unit
AreDistinct (b ∷ bs) = (b < 2 ^ 28) × Missing b bs × AreDistinct bs

abbrev pub ArePages : List (List ℕ) → Type 0
ArePages [] = Unit
ArePages (page ∷ pages) = (length page ≡ 4096) × ArePages pages

sector_num-apart :
    (fs : PassiveFs) (b c : ℕ)
    → fs.data_start_off < 2 ^ 31
    → b < 2 ^ 28
    → c < 2 ^ 28
    → b ≢ c
    → (sector_num fs b + 8 ≤ sector_num fs c) ⊎ (sector_num fs c + 8 ≤ sector_num fs b)
unfolding sector_num
sector_num-apart fs b c o h k ne = omega arith

abbrev pub all_aligned : ℕ → Bool
all_aligned i = true

module _ (device : Device) (fs : PassiveFs) (start : fs.data_start_off < 2 ^ 31) where
  open device use {Disk, read, write, read-write_same, read-write_apart}

  -- Writing other blocks keeps what a block reads.
  read-write_pages :
      (i b : ℕ) (bs : List ℕ) (pages : List (List ℕ)) (disk : Disk)
      → b < 2 ^ 28
      → Missing b bs
      → AreDistinct bs
      → read (sector_num fs b) (write_pages device fs all_aligned i bs pages disk).1
        ≡ read (sector_num fs b) disk
  unfolding write_pages
  read-write_pages i b [] pages disk h m d = refl
  read-write_pages i b (c ∷ bs) [] disk h m d = refl
  read-write_pages i b (c ∷ bs) (page ∷ pages) disk h (ne, m) (k, m', d) =
      read-write_pages (suc i) b bs pages (write (sector_num fs c) page disk) h m d
      ∙ read-write_apart (sector_num fs c) (sector_num fs b) page disk
          (sector_num-apart fs c b start k h (λ e. ne (sym e)))

  pub write_pages-aligned :
      (i : ℕ) (bs : List ℕ) (pages : List (List ℕ)) (disk : Disk)
      → (write_pages device fs all_aligned i bs pages disk).0 ≡ ok tt
  unfolding write_pages
  write_pages-aligned i [] pages disk = refl
  write_pages-aligned i (b ∷ bs) [] disk = refl
  write_pages-aligned i (b ∷ bs) (page ∷ pages) disk =
      write_pages-aligned (suc i) bs pages (write (sector_num fs b) page disk)

  -- The pages that are written to different blocks are read back.
  pub read_pages-write_pages :
      (i : ℕ) (bs : List ℕ) (pages : List (List ℕ)) (disk : Disk)
      → length pages ≡ length bs
      → ArePages pages
      → AreDistinct bs
      → ((write_pages device fs all_aligned i bs pages disk).0 ≡ ok tt)
        × (read_pages device fs all_aligned i bs
              (write_pages device fs all_aligned i bs pages disk).1
            ≡ (ok tt, pages))
  unfolding write_pages read_pages before_pages
  read_pages-write_pages i [] [] disk l p d = (refl, refl)
  read_pages-write_pages i [] (page ∷ pages) disk l p d = absurd (omega arith)
  read_pages-write_pages i (b ∷ bs) [] disk l p d = absurd (omega arith)
  read_pages-write_pages i (b ∷ bs) (page ∷ pages) disk l (len, p) (h, m, d) =
      let disk' = write (sector_num fs b) page disk in
      let (fine, rest) = read_pages-write_pages (suc i) bs pages disk' (omega arith) p d in
      let here =
        read-write_pages (suc i) b bs pages disk' h m d
        ∙ read-write_same (sector_num fs b) page disk len in
      (fine, (λ j. before_pages device fs all_aligned (here j) (rest j)))

fewer_completions : (k n : ℕ) → k < n → n < 2 ^ 32 → completions k n ≡ replicate k false
unfolding completions dec_and_test replicate
fewer_completions zero n h l = refl
fewer_completions (suc k) n h l =
    let e : (n + 2 ^ 32 - 1) % 2 ^ 32 ≡ n - 1 = omega arith in
    let f : (n - 1 == 0) ≡ false = ground arith in
    let rest = fewer_completions k (n - 1) (omega arith) (omega arith) in
    rw e (rw f (ap (λ l. false ∷ l) rest))

last_completion :
    (n : ℕ) → suc n < 2 ^ 32 → completions (suc n) (suc n) ≡ replicate n false ++ (true ∷ [])
unfolding completions dec_and_test replicate
last_completion zero h = refl
last_completion (suc n) h =
    let e : (suc (suc n) + 2 ^ 32 - 1) % 2 ^ 32 ≡ suc n = omega arith in
    let f : (suc n == 0) ≡ false = ground arith in
    let rest = last_completion n (omega arith) in rw e (rw f (ap (λ l. false ∷ l) rest))

-- The last completion of the bios that were counted, and no other, goes on with the request; where fewer
-- bios complete than were counted, none does.
pub completions_lem :
    (n : ℕ)
    → suc n < 2 ^ 32
    → (completions (suc n) (suc n) ≡ replicate n false ++ (true ∷ []))
      × ((k : ℕ) → k ≤ n → completions k (suc n) ≡ replicate k false)
completions_lem n h = (last_completion n h, λ k l. fewer_completions k (suc n) (omega arith) h)
