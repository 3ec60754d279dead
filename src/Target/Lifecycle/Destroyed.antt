-- ===== src/Target/Lifecycle/Destroyed.antt =====
-- `afs_dtr` of src/dm_afs.c on what `afs_ctr` leaves.
use artifice.Base.{
  ◌≡◌, refl, Bool, true, false, ◌&&◌, List, [], ◌∷◌, ◌++◌, Result, ok, err, Outcome, fault, done,
  Bool-cases, inl, inr,
}
use artifice.Target.Lifecycle.Constructor.{Calls, afs_ctr}
use artifice.Target.Lifecycle.Destructor.{afs_dtr, update_map, release_all, keeps_waiting}
use artifice.Target.Lifecycle.Held.{
  IsReleased, IsFresh, AreDocumented, CanRebuild, IsEmptied, IsConstructed,
}
use artifice.Target.Lifecycle.Laws.{afs_ctr-Ends}
use artifice.Target.Lifecycle.Volume.{
  Handle, null, live, freed, error_pointer, Volume, free_then, destroy_then,
}

-- Nothing of the volume is held.
abbrev pub IsDestroyed : Volume → Type 0
IsDestroyed v = IsEmptied (IsReleased v.afs_ptr_blocks) v

abbrev pub is_live : Handle → Bool
is_live live = true
is_live _ = false

abbrev pub has_queues : Calls → Bool
has_queues calls =
    is_live calls.flight_wq && (is_live calls.rebuild_wq && (is_live calls.crypto_wq && true))

-- With the queues everything is given back; without one it is a fault.
abbrev pub Destroys : Bool → Outcome Volume → Type 0
Destroys true (done v) = IsDestroyed v
Destroys true _ = ⊥
Destroys false fault = Unit {0}
Destroys false _ = ⊥

module _ (P : Outcome Volume → Type 0) (next : Handle → Outcome Volume) where
  free_then_lem :
      (h : Handle)
      → IsFresh h
      → ((h' : Handle) → IsReleased h' → P (next h'))
      → P (free_then h next)
  unfolding free_then
  free_then_lem null f k = k null tt
  free_then_lem live f k = k freed tt
  free_then_lem freed f k = absurd f
  free_then_lem (error_pointer _) f k = absurd f

-- A queue that is not there is a fault, whatever the others are.
queue_lem :
    (b : Bool) (h : Handle) (next : Handle → Outcome Volume)
    → Destroys b (next freed)
    → Destroys (is_live h && b) (destroy_then h next)
unfolding destroy_then
queue_lem b null next k = tt
queue_lem b live next k = k
queue_lem b freed next k = tt
queue_lem b (error_pointer e) next k = tt

module _ (calls : Calls) (blocks : Handle) (given : IsReleased blocks) where
  release_all_lem :
      (list map ptrs : Handle)
      → IsFresh list
      → IsFresh map
      → IsFresh ptrs
      → Destroys (has_queues calls) (
          release_all (record {
            context = live;
            passive_dev = live;
            block_list = list;
            vector = live;
            afs_map = map;
            afs_map_blocks = blocks;
            afs_ptr_blocks = ptrs;
            flight_wq = calls.flight_wq;
            rebuild_wq = calls.rebuild_wq;
            crypto_wq = calls.crypto_wq;
          }))
  unfolding release_all
  release_all_lem list map ptrs a b c =
      free_then_lem (Destroys (has_queues calls)) _ ptrs c (λ p hp.
        free_then_lem (Destroys (has_queues calls)) _ map b (λ m hm.
          free_then_lem (Destroys (has_queues calls)) _ list a (λ l hl.
            queue_lem _ calls.flight_wq _ (
              queue_lem _ calls.rebuild_wq _
                (queue_lem _ calls.crypto_wq _ ((tt, tt, hl, tt, hm, given, hp, tt, tt, tt)))))))

-- A volume as `IsConstructed` describes it.
abbrev constructed : Calls → Volume → Handle → Volume
constructed calls v blocks = record {
  context = live;
  passive_dev = live;
  block_list = v.block_list;
  vector = live;
  afs_map = v.afs_map;
  afs_map_blocks = blocks;
  afs_ptr_blocks = v.afs_ptr_blocks;
  flight_wq = calls.flight_wq;
  rebuild_wq = calls.rebuild_wq;
  crypto_wq = calls.crypto_wq;
}

constructed_lem :
    (calls : Calls) (v : Volume) → IsConstructed calls v → v ≡ constructed calls v v.afs_map_blocks
constructed_lem calls v h =
    let c = h.context in
    let d = h.passive_dev in
    let e = h.vector in let f = h.flight_wq in let r = h.rebuild_wq in let y = h.crypto_wq in cc

update_map_lem :
    (calls : Calls) (v : Volume) (created : Result (Unit {0}))
    → IsConstructed calls v
    → Destroys (has_queues calls) (update_map created v)
unfolding update_map
update_map_lem calls v (err e) h = rw (constructed_lem calls v h) (
    release_all_lem calls v.afs_map_blocks h.afs_map_blocks v.block_list v.afs_map v.afs_ptr_blocks
      h.block_list h.afs_map h.afs_ptr_blocks)
update_map_lem calls v (ok _) h = rw (constructed_lem calls v h) (
    release_all_lem calls freed tt v.block_list v.afs_map v.afs_ptr_blocks h.block_list h.afs_map
      h.afs_ptr_blocks)

wait_lem :
    (rounds more : List (Bool × Bool)) (queues : Bool × Bool) (created : Result (Unit {0}))
    (v : Volume)
    → keeps_waiting queues ≡ false
    → afs_dtr (rounds ++ (queues ∷ more)) created v ≡ update_map created v
unfolding afs_dtr
wait_lem [] more queues created v h = rw h refl
wait_lem (r ∷ rounds) more queues created v h = elim (Bool-cases (keeps_waiting r)) [
  | inl wait ↦ rw wait (wait_lem rounds more queues created v h)
  | inr go ↦ rw go refl
]

-- A volume that `afs_ctr` made, once the wait of `afs_dtr` has seen one of the two queues empty, is given
-- back completely and nothing is freed twice, whether the map blocks could be made or not. That holds
-- where all three work queues were made; where one was not, the constructor succeeded, and the destructor
-- is a fault. For a mount, `afs_rebuild` has its queue and memory for a request per block; the requests that
-- it queued are not part of the volume.
pub afs_dtr-afs_ctr :
    (calls : Calls) (rounds more : List (Bool × Bool)) (queues : Bool × Bool)
    (created : Result (Unit {0})) (v : Volume)
    → AreDocumented calls
    → CanRebuild calls
    → afs_ctr calls ≡ done (ok tt, v)
    → keeps_waiting queues ≡ false
    → Destroys (has_queues calls) (afs_dtr (rounds ++ (queues ∷ more)) created v)
afs_dtr-afs_ctr calls rounds more queues created v documented can made idle =
    let h : IsConstructed calls v = rw made at (afs_ctr-Ends calls documented can) in
    rw (wait_lem rounds more queues created v idle) (update_map_lem calls v created h)
