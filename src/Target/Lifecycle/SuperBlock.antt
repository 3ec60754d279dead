-- ===== src/Target/Lifecycle/SuperBlock.antt =====
-- `write_super_block` and `find_super_block` of src/dm_afs_metadata.c, as far as they allocate and free,
-- with their labels. Where the super blocks lie, and what the writes and reads do, is Metadata.Super.
use artifice.Base.{Bool, true, false, Result, ok, err, Outcome, done, enomem}
use artifice.Target.Lifecycle.Volume.{live, Volume, free_then}

-- What the calls return, in the order in which they are made.
pub record WriteCalls : Type 0 where
  pub afs_create_map : Result (Unit {0})
  pub afs_create_map_blocks : Result (Unit {0})
  pub ptr_blocks_memory : Bool
  pub write_ptr_blocks : Result (Unit {0})
  pub write_replicas : Result (Unit {0})

pub record FindCalls : Type 0 where
  pub read_super_block : Result (Unit {0})
  pub afs_create_map : Result (Unit {0})
  pub afs_fill_map : Result (Unit {0})
  pub ptr_blocks_memory : Bool
  pub rebuild_ptr_blocks : Result (Unit {0})

-- The status of a function and the volume it leaves.
abbrev pub Status : Type 0
Status = Result (Unit {0}) × Volume

-- What follows a call that succeeds, or the label for its error.
unfoldable pub assert_then :
    Result (Unit {0}) → (Result (Unit {0}) → Outcome Status) → Outcome Status → Outcome Status
assert_then (ok _) label next = next
assert_then (err e) label next = label (err e)

-- The labels of `write_super_block`, the last first.
unfoldable pub map_block_err : Volume → Result (Unit {0}) → Outcome Status
unfolding free_then
map_block_err v ret = free_then v.afs_map (λ h. done (ret, record v { afs_map = h }))

unfoldable pub ptr_block_err : Volume → Result (Unit {0}) → Outcome Status
unfolding free_then map_block_err
ptr_block_err v ret =
    free_then v.afs_map_blocks (λ h. map_block_err (record v { afs_map_blocks = h }) ret)

unfoldable pub sb_err : Volume → Result (Unit {0}) → Outcome Status
unfolding free_then ptr_block_err
sb_err v ret = free_then v.afs_ptr_blocks (λ h. ptr_block_err (record v { afs_ptr_blocks = h }) ret)

-- Behind the write of the replicas: the map blocks are no longer needed.
unfoldable pub write_finished : Volume → Outcome Status
unfolding free_then
write_finished v = free_then v.afs_map_blocks (λ h. done (ok tt, record v { afs_map_blocks = h }))

-- From the allocation of the pointer blocks on.
unfoldable pub write_ptrs : WriteCalls → Bool → Volume → Outcome Status
unfolding assert_then ptr_block_err sb_err write_finished
write_ptrs calls false v = ptr_block_err v (err enomem)
write_ptrs calls true v =
    let v' = record v { afs_ptr_blocks = live } in
    assert_then calls.write_ptr_blocks (ptr_block_err v')
      (assert_then calls.write_replicas (sb_err v') (write_finished v'))

-- `write_super_block`
unfoldable pub write_super_block : WriteCalls → Volume → Outcome Status
unfolding assert_then map_block_err write_ptrs
write_super_block calls v =
    let with_map = record v { afs_map = live } in
    let with_blocks = record with_map { afs_map_blocks = live } in
    assert_then calls.afs_create_map (λ ret. done (ret, v))
      (assert_then calls.afs_create_map_blocks (map_block_err with_map)
        (write_ptrs calls calls.ptr_blocks_memory with_blocks))

-- The labels of `find_super_block`, the last first. `ptr_block_err` frees the map blocks.
unfoldable pub map_fill_err : Volume → Result (Unit {0}) → Outcome Status
unfolding free_then
map_fill_err v ret = free_then v.afs_map (λ h. done (ret, record v { afs_map = h }))

unfoldable pub find_ptr_block_err : Volume → Result (Unit {0}) → Outcome Status
unfolding free_then map_fill_err
find_ptr_block_err v ret =
    free_then v.afs_map_blocks (λ h. map_fill_err (record v { afs_map_blocks = h }) ret)

unfoldable pub find_ptrs : FindCalls → Bool → Volume → Outcome Status
unfolding assert_then map_fill_err find_ptr_block_err
find_ptrs calls false v = map_fill_err v (err enomem)
find_ptrs calls true v =
    let v' = record v { afs_ptr_blocks = live } in
    assert_then calls.rebuild_ptr_blocks (find_ptr_block_err v') (done (ok tt, v'))

-- `find_super_block`: `read_super_block` is its loop with the checks behind it.
unfoldable pub find_super_block : FindCalls → Volume → Outcome Status
unfolding assert_then map_fill_err find_ptrs
find_super_block calls v =
    let with_map = record v { afs_map = live } in
    assert_then calls.read_super_block (λ ret. done (ret, v))
      (assert_then calls.afs_create_map (λ ret. done (ret, v))
        (assert_then calls.afs_fill_map (map_fill_err with_map)
          (find_ptrs calls calls.ptr_blocks_memory with_map)))
