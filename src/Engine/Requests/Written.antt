-- ===== src/Engine/Requests/Written.antt =====
-- What `afs_write_request` in src/dm_afs_engine.c leaves in the map and on the disk.
use artifice.Base.{
  ℕ, suc, ◌+◌, ◌*◌, ◌^◌, ◌≡◌, ◌≤◌, ◌<◌, ◌⊎◌, inl, inr, arith, refl, ap, sym, ◌∙◌, List, [], ◌∷◌,
  length, memcpy, slice, length-memcpy, Result, ok, err, enospc, Outcome, done,
}
use artifice.Format.{Config}
use artifice.Kernel.{BitOps, Device}
use artifice.Allocation.{PassiveFs, invalid_block}
use artifice.Engine.Entry.{carrier_block_ptr}
use artifice.Engine.Entry.Laws.{Apart, slice-memcpy-Apart}
use artifice.Engine.Carriers.{Store, reset_entry}
use artifice.Engine.Carriers.Laws.{Changed, AreEntered}
use artifice.Engine.Carriers.Ending.{Ends, reset_entry_lem}
use artifice.Engine.Pages.{write_pages}
use artifice.Engine.Pages.Laws.{all_aligned, write_pages-aligned}
use artifice.Engine.Requests.{Coder, Sent, sent, block_nums_of}

-- Between two maps only the bytes of one entry may differ.
pub record Within (e size : ℕ) (m m' : List ℕ) : Type 0 where
  pub same_length : length m' ≡ length m
  pub outside : (a n : ℕ) → Apart e size a n → slice m' a n ≡ slice m a n

pub Within-trans :
    (e size : ℕ) (m m' m'' : List ℕ)
    → Within e size m m'
    → Within e size m' m''
    → Within e size m m''
Within-trans e size m m' m'' w v = record {
  same_length = v.same_length ∙ w.same_length;
  outside = λ a n p. v.outside a n p ∙ w.outside a n p;
}

-- The tuples are part of the entry.
Within-Changed : (e k : ℕ) (m m' : List ℕ) → Changed e 0 k m m' → Within e (40 + 6 * k) m m'
Within-Changed e k m m' c = record {
  same_length = c.same_length;
  outside = λ a n p. c.outside a n (part a n p);
}
  where
    part : (a n : ℕ) → Apart e (40 + 6 * k) a n → Apart (e + 6 * 0) (6 * k) a n
    part a n (inl l) = inl (omega arith)
    part a n (inr r) = inr (omega arith)

-- So is the difference behind them.
pub Within-difference :
    (e k : ℕ) (m difference : List ℕ)
    → e + (40 + 6 * k) ≤ length m
    → length difference ≡ 32
    → Within e (40 + 6 * k) m (memcpy m (e + k * 6) difference)
Within-difference e k m difference h l = record {
  same_length = length-memcpy m (e + k * 6) difference (omega arith);
  outside = λ a n p. slice-memcpy-Apart m (e + k * 6) difference a n (omega arith) (part a n p);
}
  where
    part : (a n : ℕ) → Apart e (40 + 6 * k) a n → Apart (e + k * 6) (length difference) a n
    part a n (inl b) = inl (omega arith)
    part a n (inr r) = inr (omega arith)

module _ (ops : BitOps) (device : Device) (fs : PassiveFs) (config : Config) (coder : Coder)
    (hash16 : List ℕ → ℕ) where
  open ops use {Memory}
  open device use {Disk}

  abbrev pub carriers : ℕ
  carriers = config.num_carrier_blocks

  -- The pointers of an entry are read as the block numbers that were entered.
  pub block_nums_of-entered :
      (e i : ℕ) (block_nums m : List ℕ)
      → AreEntered e i block_nums m
      → block_nums_of ops device fs config coder hash16 all_aligned m e i (length block_nums)
        ≡ block_nums
  unfolding block_nums_of
  block_nums_of-entered e i [] m a = refl
  block_nums_of-entered e i (b ∷ bs) m a =
      let z : i + 0 ≡ i = omega arith in
      let here = ap (carrier_block_ptr m e) (sym z) ∙ a.pointer 0 (omega arith) in
      let rest = block_nums_of-entered e (suc i) bs m (record {
        pointer = λ j h.
            let s : suc i + j ≡ i + suc j = omega arith in rw s (a.pointer (suc j) (omega arith));
        valid = λ j h. a.valid (suc j) (omega arith);
        word = λ j h. a.word (suc j) (omega arith);
      }) in
      λ j. here j ∷ rest j

  -- What a write leaves in the state, on success and when it fails with -ENOSPC.
  pub record Succeeded (e : ℕ) (pages : List (List ℕ)) (disk : Disk) (r : Sent Memory Disk)
      : Type 0 where
    pub fine : r.ret ≡ ok tt
    pub count : length r.block_nums ≡ carriers
    pub entered : AreEntered e 0 r.block_nums r.store.afs_map
    pub carriers_sent : r.carrier_blocks ≡ pages
    pub on_disk : r.disk ≡ (write_pages device fs all_aligned 0 r.block_nums pages disk).1

  pub record Failed (e : ℕ) (disk : Disk) (r : Sent Memory Disk) : Type 0 where
    pub error : r.ret ≡ err enospc
    pub unwritten : r.disk ≡ disk
    pub given_up : (i : ℕ) → i < carriers → carrier_block_ptr r.store.afs_map e i ≡ invalid_block

  abbrev pub SentEnds : ℕ → List (List ℕ) → Disk → List ℕ → Outcome (Sent Memory Disk) → Type 0
  SentEnds e pages disk m o =
      (r : Sent Memory Disk) × (o ≡ done r)
      × Within e (40 + 6 * carriers) m r.store.afs_map
      × (Succeeded e pages disk r ⊎ Failed e disk r)

  -- The end of a write, after the blocks were looked for.
  pub sent_lem :
      (start : fs.data_start_off < 2 ^ 31) (e : ℕ) (pages : List (List ℕ)) (disk : Disk)
      (s : Store Memory) (o : Outcome (Result (Unit {0}) × List ℕ × Store Memory))
      → e + (40 + 6 * carriers) ≤ length s.afs_map
      → Ends ops fs e carriers 0 s o
      → SentEnds e pages disk s.afs_map
          (sent ops device fs config coder hash16 all_aligned e pages disk o)
  unfolding sent
  sent_lem start e pages disk s o h x = rw x.ends (elim x.either [
    | inl (fine, count, entered) ↦
        rw (fine, write_pages-aligned device fs start 0 x.block_nums pages disk)
          (
            _,
            refl,
            Within-Changed e carriers s.afs_map x.after.afs_map x.changed,
            inl (record {
              fine = refl;
              count = count;
              entered = entered;
              carriers_sent = refl;
              on_disk = refl;
            }),
          )
    | inr full ↦
        let l = x.changed.same_length in
        let (c, all) = reset_entry_lem ops fs e carriers 0 x.after (omega arith) in
        rw full (
          _,
          refl,
          Within-trans e (40 + 6 * carriers) s.afs_map x.after.afs_map
              (reset_entry ops fs e carriers 0 x.after).afs_map
              (Within-Changed e carriers s.afs_map x.after.afs_map x.changed)
              (Within-Changed e carriers x.after.afs_map
                (reset_entry ops fs e carriers 0 x.after).afs_map c),
          inr (record {
            error = refl;
            unwritten = refl;
            given_up = λ i l.
                let z : i ≡ 0 + i = omega arith in
                ap (carrier_block_ptr (reset_entry ops fs e carriers 0 x.after).afs_map e) z
                ∙ all i l;
          }),
        )
  ])
