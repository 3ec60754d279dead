-- ===== src/Engine/Carriers/Ending.antt =====
-- How finding blocks for the carriers in src/dm_afs_engine.c ends, and what giving them up leaves.
use artifice.Base.{
  ℕ, zero, suc, ◌+◌, ◌*◌, ◌^◌, ◌%◌, ◌≡◌, ◌≤◌, ◌<◌, ◌⊎◌, inl, inr, arith, refl, ap, ◌∙◌, true, false,
  ◌==◌, Bool-cases, List, [], ◌∷◌, length, Result, ok, err, enospc, Outcome, pending, done,
}
use artifice.Kernel.{BitOps}
use artifice.Allocation.{AllocationVector, PassiveFs, invalid_block}
use artifice.Allocation.Laws.{Ready}
use artifice.Allocation.Acquire.{IsUsable, Acquired, acquire_block_lem}
use artifice.Engine.Entry.{carrier_block_ptr, set_carrier_block_ptr}
use artifice.Engine.Entry.Laws.{length-set_ptr, ptr-set_ptr}
use artifice.Engine.Carriers.{
  Store, with_block, enter, block_for, assign_blocks, reset_carrier, reset_entry,
}
use artifice.Engine.Carriers.Laws.{
  Changed, AreEntered, Changed-refl, Changed-step, AreEntered-step, ptr-Changed,
}

entered_none : (e i : ℕ) (m : List ℕ) → AreEntered e i [] m
entered_none e i m = record {
  pointer = λ j h. absurd (omega arith);
  valid = λ j h. absurd (omega arith);
  word = λ j h. absurd (omega arith);
}

module _ (ops : BitOps) (fs : PassiveFs) (e : ℕ) where
  open ops use {Memory}

  -- How the loop over the carriers ends.
  pub record Ends (k i : ℕ) (s : Store Memory)
      (o : Outcome (Result (Unit {0}) × List ℕ × Store Memory)) : Type 0 where
    pub ret : Result (Unit {0})
    pub block_nums : List ℕ
    pub after : Store Memory
    pub ends : o ≡ done (ret, block_nums, after)
    pub changed : Changed e i k s.afs_map after.afs_map
    pub either :
        (ret ≡ ok tt) × (length block_nums ≡ k) × AreEntered e i block_nums after.afs_map
        ⊎ (ret ≡ err enospc)

  -- What the loop makes of the state before it goes on.
  abbrev entered : ℕ → ℕ → AllocationVector Memory → List ℕ → Store Memory → Store Memory
  entered i b v draws s = record {
    afs_map = set_carrier_block_ptr s.afs_map e i (b % 2 ^ 32);
    vector = v;
    draws = draws;
  }

  module _ (k i b : ℕ) (v : AllocationVector Memory) (draws : List ℕ) (s : Store Memory)
      (rest : Store Memory → Outcome (Result (Unit {0}) × List ℕ × Store Memory)) where
    enter_full :
        (b % 2 ^ 32 == invalid_block) ≡ true
        → Ends (suc k) i s (enter ops fs e rest i s (done (b, v, draws)))
    unfolding enter
    enter_full none_left = rw none_left (record {
      ret = err enospc;
      block_nums = [];
      after = record { afs_map = s.afs_map; vector = v; draws = draws };
      ends = refl;
      changed = Changed-refl e i (suc k) s.afs_map;
      either = inr refl;
    })

    -- A block that was found is entered, and the loop goes on; the invalid block ends it.
    enter_lem :
        e + 6 * (i + suc k) ≤ length s.afs_map
        → Ends k (suc i) (entered i b v draws s) (rest (entered i b v draws s))
        → Ends (suc k) i s (enter ops fs e rest i s (done (b, v, draws)))
    unfolding enter with_block
    enter_lem h r = elim (Bool-cases (b % 2 ^ 32 == invalid_block)) [
      | inl none_left ↦ enter_full none_left
      | inr found ↦ rw found (record {
        ret = r.ret;
        block_nums = b % 2 ^ 32 ∷ r.block_nums;
        after = r.after;
        ends = ap (with_block ops fs e (b % 2 ^ 32)) r.ends;
        changed = Changed-step e i k (b % 2 ^ 32) s.afs_map r.after.afs_map h r.changed;
        either = elim r.either [
          | inl (fine, count, here) ↦ inl (
            fine,
            ap suc count,
            AreEntered-step e i k (b % 2 ^ 32) r.block_nums s.afs_map r.after.afs_map (omega arith)
                (omega arith) (ground arith) r.changed here,
          )
          | inr full ↦ inr full
        ];
      })
    ]

    enter_or_wait :
        e + 6 * (i + suc k) ≤ length s.afs_map
        → (rest (entered i b v draws s) ≡ pending)
          ⊎ Ends k (suc i) (entered i b v draws s) (rest (entered i b v draws s))
        → (enter ops fs e rest i s (done (b, v, draws)) ≡ pending)
          ⊎ Ends (suc k) i s (enter ops fs e rest i s (done (b, v, draws)))
    unfolding enter with_block
    enter_or_wait h (inr r) = inr (enter_lem h r)
    enter_or_wait h (inl stuck) = elim (Bool-cases (b % 2 ^ 32 == invalid_block)) [
      | inl none_left ↦ inr (enter_full none_left)
      | inr found ↦ inl (rw found (rw stuck refl))
    ]

  -- With the blocks of the map.
  pub assign_modified :
      (k i : ℕ) (s : Store Memory)
      → e + 6 * (i + k) ≤ length s.afs_map
      → Ends k i s (assign_blocks ops fs e true k i s)
  unfolding assign_blocks block_for
  assign_modified zero i s h = record {
    ret = ok tt;
    block_nums = [];
    after = s;
    ends = refl;
    changed = Changed-refl e i 0 s.afs_map;
    either = inl (refl, refl, entered_none e i s.afs_map);
  }
  assign_modified (suc k) i s h =
      let b = carrier_block_ptr s.afs_map e i in
      let l = length-set_ptr s.afs_map e i (b % 2 ^ 32) (omega arith) in
      enter_lem k i b s.vector s.draws s (assign_blocks ops fs e true k (suc i)) h
        (assign_modified k (suc i) _ (omega arith))

  module _ {n : ℕ} (u : IsUsable n fs) where
    still-Ready :
        (v : AllocationVector Memory) (ready : Ready ops n v)
        (r : ℕ × AllocationVector Memory × List ℕ)
        → Acquired ops u v ready r
        → Ready ops n r.1
    still-Ready v ready (b, v', draws) (inl took) = took.ready
    still-Ready v ready (b, v', draws) (inr (z, same)) = rw same ready

    -- With new blocks: the loop never faults, and ends where the random numbers suffice.
    pub assign_new :
        (k i : ℕ) (s : Store Memory)
        → Ready ops n s.vector
        → e + 6 * (i + k) ≤ length s.afs_map
        → (assign_blocks ops fs e false k i s ≡ pending)
          ⊎ Ends k i s (assign_blocks ops fs e false k i s)
    unfolding assign_blocks block_for
    assign_new zero i s ready h = inr (record {
      ret = ok tt;
      block_nums = [];
      after = s;
      ends = refl;
      changed = Changed-refl e i 0 s.afs_map;
      either = inl (refl, refl, entered_none e i s.afs_map);
    })
    assign_new (suc k) i s ready h = elim (acquire_block_lem ops u s.vector ready s.draws) [
      | inl (stuck, _) ↦ inl (rw stuck refl)
      | inr (r, found, acquired) ↦
          let l = length-set_ptr s.afs_map e i (r.0 % 2 ^ 32) (omega arith) in
          rw found (
            enter_or_wait k i r.0 r.1 r.2 s (assign_blocks ops fs e false k (suc i)) h (
              assign_new k (suc i) (entered i r.0 r.1 r.2 s) (still-Ready s.vector ready r acquired)
                (omega arith)))
    ]

  -- After `reset_entry` the pointers are invalid, and no other byte of the map changed.
  pub reset_entry_lem :
      (k i : ℕ) (s : Store Memory)
      → e + 6 * (i + k) ≤ length s.afs_map
      → Changed e i k s.afs_map (reset_entry ops fs e k i s).afs_map
        × ((j : ℕ)
            → j < k
            → carrier_block_ptr (reset_entry ops fs e k i s).afs_map e (i + j) ≡ invalid_block)
  unfolding reset_entry reset_carrier
  reset_entry_lem zero i s h = (Changed-refl e i 0 s.afs_map, λ j l. absurd (omega arith))
  reset_entry_lem (suc k) i s h =
      let l = length-set_ptr s.afs_map e i invalid_block (omega arith) in
      let s' = reset_carrier ops fs e i s in
      let (c, all) = reset_entry_lem k (suc i) s' (omega arith) in
      (
        Changed-step e i k invalid_block s.afs_map (reset_entry ops fs e k (suc i) s').afs_map h c,
        elim [
          | zero ↦ λ j.
              let z : i + zero ≡ i = omega arith in
              rw z (
                ptr-Changed e i k s'.afs_map (reset_entry ops fs e k (suc i) s').afs_map c
                ∙ ptr-set_ptr s.afs_map e i invalid_block (omega arith) (omega arith))
          | suc j ↦ λ l'. let z : i + suc j ≡ suc i + j = omega arith in rw z (all j (omega arith))
        ],
      )
