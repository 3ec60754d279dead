-- ===== src/Target/Lifecycle/Destructor.antt =====
-- `afs_dtr` of src/dm_afs.c: the wait, the update of the map on the disk, and what it gives back.
use artifice.Base.{
  Bool, ◌&&◌, not, List, [], ◌∷◌, if◌then◌else◌, Result, ok, err, Outcome, pending, done,
}
use artifice.Target.Lifecycle.Volume.{live, Volume, free_then, destroy_then}

-- The condition of the loop that waits, on whether the flight and the rebuild queue are empty.
unfoldable pub keeps_waiting : Bool × Bool → Bool
keeps_waiting (flight, rebuild) = not flight && not rebuild

-- From the pointer blocks on.
unfoldable pub release_all : Volume → Outcome Volume
unfolding free_then destroy_then
release_all v = free_then v.afs_ptr_blocks (λ ptrs. free_then v.afs_map (λ map.
    free_then v.vector (λ vector. free_then v.block_list (λ list. destroy_then v.passive_dev (λ dev.
      destroy_then v.flight_wq (λ flight. destroy_then v.rebuild_wq (λ rebuild.
        destroy_then v.crypto_wq (λ crypto. free_then v.context (λ context. done (record v {
          context = context;
          passive_dev = dev;
          block_list = list;
          vector = vector;
          afs_map = map;
          afs_ptr_blocks = ptrs;
          flight_wq = flight;
          rebuild_wq = rebuild;
          crypto_wq = crypto;
        }))))))))))

-- The update of the map: `afs_create_map_blocks` sets the pointer, and only then `write_map_blocks` runs,
-- whose error is only reported.
unfoldable pub update_map : Result (Unit {0}) → Volume → Outcome Volume
unfolding release_all free_then
update_map (err e) v = release_all v
update_map (ok _) v = free_then live (λ h. release_all (record v { afs_map_blocks = h }))

-- `afs_dtr`: what the queues are at each round of the wait, and what `afs_create_map_blocks` returns.
unfoldable pub afs_dtr : List (Bool × Bool) → Result (Unit {0}) → Volume → Outcome Volume
unfolding update_map keeps_waiting
afs_dtr [] created v = pending
afs_dtr (queues ∷ rounds) created v =
    let rest = afs_dtr rounds created v in
    if keeps_waiting queues then rest else update_map created v
