-- ===== src/Engine/Requests/Ending.antt =====
-- How `afs_write_request` of src/dm_afs_engine.c ends, from the encoding of the data block on.
use artifice.Base.{
  ℕ, ◌+◌, ◌*◌, ◌^◌, ◌≡◌, ◌≤◌, ◌<◌, ◌⊎◌, inl, inr, arith, refl, ap, Bool, true, false, not, ◌==◌,
  List, length, memcpy, Result, Outcome, pending,
}
use artifice.Format.{Config}
use artifice.Kernel.{BitOps, Device}
use artifice.Allocation.{PassiveFs, invalid_block}
use artifice.Allocation.Laws.{Ready}
use artifice.Allocation.Acquire.{IsUsable}
use artifice.Target.Request.{MapRequest}
use artifice.Engine.Entry.{afs_get_map_entry, map_entry_difference, carrier_block_ptr}
use artifice.Engine.Segments.Laws.{IsWithin, bytes_of}
use artifice.Engine.Carriers.{Store, assign_blocks}
use artifice.Engine.Carriers.Ending.{Ends, assign_modified, assign_new}
use artifice.Engine.Pages.Laws.{all_aligned}
use artifice.Engine.Requests.{Coder, sent, encoded}
use artifice.Engine.Requests.Written.{Within, Within-trans, Within-difference, SentEnds, sent_lem}

-- What a write relies on: the request is within a block, the coder makes as many carriers as the
-- configuration says, and the entry lies in the map.
pub record CanWrite (fs : PassiveFs) (config : Config) (coder : Coder) (req : MapRequest)
    (data_block bytes : List ℕ) : Type 0 where
  pub within : IsWithin req
  pub block : length data_block ≡ 4096
  pub count : coder.count ≡ config.num_carrier_blocks
  pub some_carrier : 0 < config.num_carrier_blocks
  pub entry :
      afs_get_map_entry config req.block + (40 + 6 * config.num_carrier_blocks) ≤ length bytes
  pub start : fs.data_start_off < 2 ^ 31

module _ (ops : BitOps) (device : Device) (fs : PassiveFs) (config : Config) (coder : Coder)
    (hash16 : List ℕ → ℕ) where
  open ops use {Memory}
  open device use {Disk}

  module _ (req : MapRequest) (data_block : List ℕ) (bio : List (List ℕ)) (random : List ℕ)
      (s : Store Memory) (disk : Disk) (can : CanWrite fs config coder req data_block s.afs_map)
      (whole : req.request_size ≤ length (bytes_of bio)) where
    abbrev e : ℕ
    e = afs_get_map_entry config req.block

    -- How a write ends once blocks were looked for.
    pub finish :
        (s' : Store Memory) (pages : List (List ℕ))
        (o : Outcome (Result (Unit {0}) × List ℕ × Store Memory))
        → Within e (40 + 6 * config.num_carrier_blocks) s.afs_map s'.afs_map
        → Ends ops fs e config.num_carrier_blocks 0 s' o
        → SentEnds ops device fs config coder hash16 e pages disk s.afs_map
            (sent ops device fs config coder hash16 all_aligned e pages disk o)
    finish s' pages o w x =
        let fits = can.entry in
        let room = w.same_length in
        let (r, ends, v, either) =
          sent_lem ops device fs config coder hash16 can.start e pages disk s' o (omega arith) x in
        (
          r,
          ends,
          Within-trans e (40 + 6 * config.num_carrier_blocks) s.afs_map s'.afs_map r.store.afs_map w
              v,
          either,
        )

    -- How the blocks are looked for.
    pub assigned :
        (modification : Bool) (s' : Store Memory)
        → e + 6 * (0 + config.num_carrier_blocks) ≤ length s'.afs_map
        → (modification ≡ true) ⊎ ((n : ℕ) × IsUsable n fs × Ready ops n s'.vector)
        → (assign_blocks ops fs e modification config.num_carrier_blocks 0 s' ≡ pending)
            × (modification ≡ false)
          ⊎ Ends ops fs e config.num_carrier_blocks 0 s'
              (assign_blocks ops fs e modification config.num_carrier_blocks 0 s')
    assigned true s' room free = inr (assign_modified ops fs e config.num_carrier_blocks 0 s' room)
    assigned false s' room (inl t) = absurd cc
    assigned false s' room (inr (n, u, ready)) =
        elim (assign_new ops fs e u config.num_carrier_blocks 0 s' ready room) [
          | inl stuck ↦ inl (stuck, refl)
          | inr x ↦ inr x
        ]

    -- How a write of the data block that the bio was copied into ends.
    pub encoded_lem :
        (block' : List ℕ) (modification : Bool)
        → length block' ≡ 4096
        → not (carrier_block_ptr s.afs_map e 0 == invalid_block) ≡ modification
        → (modification ≡ true) ⊎ ((n : ℕ) × IsUsable n fs × Ready ops n s.vector)
        → (encoded ops device fs config coder hash16 all_aligned e s disk
                (coder.encode random block')
              ≡ pending)
            × (modification ≡ false)
          ⊎ SentEnds ops device fs config coder hash16 e
              (coder.encode random block').1
              disk
              s.afs_map
              (encoded ops device fs config coder hash16 all_aligned e s disk
                (coder.encode random block'))
    unfolding encoded sent map_entry_difference
    encoded_lem block' modification l same free =
        let k = config.num_carrier_blocks in
        let (difference, pages) = coder.encode random block' in
        let d = coder.length-difference random block' l in
        let fits = can.entry in
        let m = memcpy s.afs_map (e + k * 6) difference in
        let w = Within-difference e k s.afs_map difference fits d in
        let room = w.same_length in
        let s' : Store Memory = record { afs_map = m; vector = s.vector; draws = s.draws } in
        rw same (elim (assigned modification s' (omega arith) free) [
          | inl (stuck, new) ↦
              inl (ap (sent ops device fs config coder hash16 all_aligned e pages disk) stuck, new)
          | inr x ↦ inr (finish s' pages _ w x)
        ])
