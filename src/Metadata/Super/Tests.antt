-- ===== src/Metadata/Super/Tests.antt =====
-- A super block in two replicas at one location, for src/dm_afs_metadata.c.
use artifice.Base.{
  ℕ, ◌≡◌, refl, arith, true, List, [], ◌∷◌, length-replicate, replicate, ok, done, le32_at,
}
use artifice.Kernel.{pages_device}
use artifice.Allocation.{PassiveFs}
use artifice.Metadata.Search.{binary_search}
use artifice.Metadata.Super.{locations, probe, is_sealed, write_replicas, find_from}
use artifice.Metadata.Super.Laws.{AreBelow, AreReplicas, find_from-write_replicas}

abbrev fs : PassiveFs
fs = record {
  block_list = 0 ∷ 1 ∷ 2 ∷ 3 ∷ [];
  list_len = 4;
  sectors_per_block = 8;
  total_blocks = 16;
  data_start_off = 2;
  blocks_in_tuple = 1;
}

abbrev sb : List ℕ
sb = replicate 4096 0

abbrev pass_hash : List ℕ
pass_hash = 17 ∷ 0 ∷ 0 ∷ 0 ∷ []

abbrev next_hash : List ℕ → List ℕ
next_hash hash = hash

abbrev seal : List ℕ → List ℕ
seal rest = replicate 32 0

found_locations : locations next_hash fs 16 1 2 pass_hash ≡ done (1 ∷ 1 ∷ [])
unfolding locations probe binary_search le32_at
found_locations = refl

sb_sealed : is_sealed pages_device fs (λ _. true) next_hash seal 16 sb ≡ true
unfolding is_sealed replicate
sb_sealed = refl

fs_below : AreBelow fs.block_list
fs_below = (omega arith, (omega arith, (omega arith, (omega arith, tt))))

find_from-write_replicas_example :
    (disk' : pages_device.Disk) × (write_replicas pages_device fs
        (λ _. true)
        0
        (1 ∷ 1 ∷ [])
        sb
        (λ _. [])
      ≡ done (ok tt, disk'))
    × AreReplicas pages_device fs
        (omega arith)
        fs_below
        sb
        (length-replicate {A = ℕ} 4096 0)
        (1 ∷ 1 ∷ [])
        disk'
    × (find_from pages_device fs (λ _. true) next_hash seal 16 1 1 0 pass_hash disk'
        ≡ done (ok (sb, 1)))
find_from-write_replicas_example =
    find_from-write_replicas pages_device fs (omega arith) fs_below sb
      (length-replicate {A = ℕ} 4096 0) next_hash seal 16 1 1 0 pass_hash 1 (1 ∷ []) (λ _. [])
      found_locations (omega arith, (omega arith, tt)) sb_sealed
