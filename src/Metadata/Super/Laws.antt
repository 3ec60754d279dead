-- ===== src/Metadata/Super/Laws.antt =====
-- Writing the super block of src/dm_afs_metadata.c and looking for it.
use artifice.Base.{
  ℕ, zero, suc, ◌%◌, ◌^◌, ◌≡◌, ◌≢◌, ◌<◌, refl, ap, sym, ◌∙◌, arith, ◌⊎◌, inl, inr, Bool, true,
  if◌then◌else◌, ◌==◌, Bool-cases, List, [], ◌∷◌, length, get_elem?, some, Result, ok, Outcome,
  fault, pending, done,
}
use artifice.Kernel.{Device}
use artifice.Allocation.{PassiveFs}
use artifice.Io.{read_page, write_page}
use artifice.Io.Laws.{read_page-write_page}
use artifice.Metadata.Super.{
  Probe, probe, before_locations, located, locations, write_replicas, next_replica, is_sealed,
  checked, attempt, find_from,
}

-- The free list names blocks below 4 GiB only.
abbrev pub AreBelow : List ℕ → Type 0
AreBelow [] = Unit {0}
AreBelow (b ∷ bs) = (b < 2 ^ 20) × AreBelow bs

below : (bs : List ℕ) (i b : ℕ) → AreBelow bs → get_elem? bs i ≡ some b → b < 2 ^ 20
below [] i b a e = absurd cc
below (c ∷ bs) zero b (h, a) e = let s : b ≡ c = cc in omega arith
below (c ∷ bs) (suc i) b (h, a) e = below bs i b a e

-- The locations are positions of the free list.
abbrev pub AreListed : List ℕ → List ℕ → Type 0
AreListed list [] = Unit {0}
AreListed list (block ∷ blocks) = (block < length list) × AreListed list blocks

some_elem : (bs : List ℕ) (i : ℕ) → i < length bs → (b : ℕ) × (get_elem? bs i ≡ some b)
some_elem [] i h = absurd (omega arith)
some_elem (c ∷ bs) zero h = (c, refl)
some_elem (c ∷ bs) (suc i) h = some_elem bs i (omega arith)

module _ (device : Device) (fs : PassiveFs) (start : fs.data_start_off < 2 ^ 31)
    (under : AreBelow fs.block_list) (sb : List ℕ) (page : length sb ≡ 4096) where
  open device use {Disk}

  abbrev with_bio : ℕ → Bool
  with_bio i = true

  -- Block `b` holds the super block.
  abbrev Holds : ℕ → Disk → Type 0
  Holds b disk = read_page device true [] b (fs.data_start_off % 2 ^ 32) disk ≡ (ok tt, sb)

  offset : fs.data_start_off % 2 ^ 32 < 2 ^ 31
  offset = omega arith

  written :
      (b b' : ℕ) (disk : Disk)
      → b < 2 ^ 20
      → b' < 2 ^ 20
      → (b ≡ b') ⊎ Holds b disk
      → Holds b (write_page device true sb b' (fs.data_start_off % 2 ^ 32) disk).1
  written b b' disk h k here =
      let (_, same, other) =
        read_page-write_page device b' b (fs.data_start_off % 2 ^ 32) sb [] disk k h offset page in
      elim (Bool-cases (b == b')) [
        | inl t ↦ let e : b ≡ b' = ground arith in rw e same
        | inr f ↦
            let ne : b' ≢ b = ground arith in
            elim here [ inl e ↦ absurd (ne (sym e)) | inr old ↦ other ne ∙ old ]
      ]

  write_replicas_step :
      (i block b : ℕ) (blocks : List ℕ) (disk : Disk)
      → get_elem? fs.block_list block ≡ some b
      → write_replicas device fs with_bio i (block ∷ blocks) sb disk
        ≡ next_replica device fs with_bio
            (write_replicas device fs with_bio (suc i) blocks sb)
            (write_page device true sb b (fs.data_start_off % 2 ^ 32) disk)
  unfolding write_replicas
  write_replicas_step i block b blocks disk e = rw (write_replicas, e) refl

  -- The blocks at these positions of the free list all hold the super block.
  abbrev pub AreReplicas : List ℕ → Disk → Type 0
  AreReplicas [] disk = Unit {0}
  AreReplicas (block ∷ blocks) disk =
      ((b : ℕ) → get_elem? fs.block_list block ≡ some b → Holds b disk) × AreReplicas blocks disk

  -- The replicas are written, and a block that holds one still does.
  write_replicas_lem :
      (i : ℕ) (blocks : List ℕ) (disk : Disk)
      → AreListed fs.block_list blocks
      → (disk' : Disk) × (write_replicas device fs with_bio i blocks sb disk ≡ done (ok tt, disk'))
        × ((b : ℕ) → b < 2 ^ 20 → Holds b disk → Holds b disk')
        × AreReplicas blocks disk'
  unfolding write_replicas next_replica
  write_replicas_lem i [] disk listed = (disk, refl, (λ b h here. here), tt)
  write_replicas_lem i (block ∷ blocks) disk (l, listed) =
      let (b', e) = some_elem fs.block_list block l in
      let k = below fs.block_list block b' under e in
      let w = write_page device true sb b' (fs.data_start_off % 2 ^ 32) disk in
      let (fine, same, _) =
        read_page-write_page device b' b' (fs.data_start_off % 2 ^ 32) sb [] disk k k offset page in
      let (disk', done_lem, keeps, held) = write_replicas_lem (suc i) blocks w.1 listed in
      (
        disk',
        write_replicas_step i block b' blocks disk e
            ∙ ap
                (λ r.
                  next_replica device fs with_bio
                    (write_replicas device fs with_bio (suc i) blocks sb) (r, w.1))
                fine
            ∙ done_lem,
        λ b h here. keeps b h (written b b' disk h k (inr here)),
        (λ b e'. let s : b ≡ b' = cc in rw s (keeps b' k same), held),
      )

  module _ (hash_sha1 hash_sha256 : List ℕ → List ℕ) (size : ℕ) where
    before_first :
        (c block : ℕ) (blocks : List ℕ) (o : Outcome (List ℕ))
        → before_locations hash_sha1 fs size c o ≡ done (block ∷ blocks)
        → c ≡ block
    unfolding before_locations
    before_first c block blocks fault h = absurd cc
    before_first c block blocks pending h = absurd cc
    before_first c block blocks (done found) h = cc

    -- The first location is where the first probe ends.
    first_probe :
        (o : Outcome Probe) (rest : List ℕ → Outcome (List ℕ)) (block : ℕ) (blocks : List ℕ)
        → located hash_sha1 fs size o rest ≡ done (block ∷ blocks)
        → (p : Probe) × (o ≡ done p) × (p.block ≡ block)
    unfolding located
    first_probe fault rest block blocks h = absurd cc
    first_probe pending rest block blocks h = absurd cc
    first_probe (done p) rest block blocks h =
        (p, refl, before_first p.block block blocks (rest p.pass_hash) h)

    attempt_step :
        (sb_tries b : ℕ) (disk : Disk) (p : Probe) (again : Probe → Outcome (Result (List ℕ × ℕ)))
        → get_elem? fs.block_list p.block ≡ some b
        → attempt device fs with_bio hash_sha1 hash_sha256 size sb_tries disk (done p) again
          ≡ checked device fs with_bio hash_sha1 hash_sha256 size p.block
              (read_page device true [] b (fs.data_start_off % 2 ^ 32) disk)
              (again p)
    unfolding attempt
    attempt_step sb_tries b disk p again e = rw (attempt, e) refl

    -- A super block whose locations for the passphrase are positions of the free list, which names
    -- blocks below 4 GiB, is written to the blocks at all these positions, each of which then reads as the
    -- super block, with memory for the writes and reads, and then `find_super_block` finds it at the
    -- first location, in the first round, whatever the disk held.
    pub find_from-write_replicas :
        (fuel k rounds : ℕ) (pass_hash : List ℕ) (block : ℕ) (blocks : List ℕ) (disk : Disk)
        → locations hash_sha1 fs size fuel (suc k) pass_hash ≡ done (block ∷ blocks)
        → AreListed fs.block_list (block ∷ blocks)
        → is_sealed device fs with_bio hash_sha1 hash_sha256 size sb ≡ true
        → (disk' : Disk) × (write_replicas device fs with_bio 0 (block ∷ blocks) sb disk
            ≡ done (ok tt, disk'))
          × AreReplicas (block ∷ blocks) disk'
          × (find_from device fs with_bio hash_sha1 hash_sha256 size fuel
                (suc rounds)
                0
                pass_hash
                disk'
              ≡ done (ok (sb, block)))
    unfolding find_from checked locations
    find_from-write_replicas fuel k rounds pass_hash block blocks disk located_at listed sealed =
        let (p, found, same) =
          first_probe (probe hash_sha1 fs size fuel 0 pass_hash)
            (λ h. locations hash_sha1 fs size fuel k (hash_sha1 h)) block blocks located_at in
        let (b, e) = some_elem fs.block_list block (listed.0) in
        let (disk', written_all, _, held) = write_replicas_lem 0 (block ∷ blocks) disk listed in
        let here = held.0 b e in
        let again = λ (q : Probe).
          find_from device fs with_bio hash_sha1 hash_sha256 size fuel rounds (suc q.sb_tries)
            q.pass_hash disk' in
        (
          disk',
          written_all,
          held,
          ap (λ o. attempt device fs with_bio hash_sha1 hash_sha256 size 0 disk' o again) found
              ∙ attempt_step 0 b disk' p again (ap (get_elem? fs.block_list) same ∙ e)
              ∙ ap (λ r. checked device fs with_bio hash_sha1 hash_sha256 size p.block r (again p))
                  here
              ∙ ap (λ t. if t then done (ok (sb, p.block)) else again p) sealed
              ∙ ap (λ c. done (ok (sb, c))) same,
        )
