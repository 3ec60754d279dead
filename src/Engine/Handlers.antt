-- ===== src/Engine/Handlers.antt =====
-- What the work queues and `afs_rebuild` of src/dm_afs.c and the functions of src/dm_afs_engine.c do with
-- the memory of a request and with its bio. What the calls return is an argument (`RequestCalls`), the data is
-- left to Engine/Requests. A work function finds no other work pending, and an error of `read_pages` or
-- `write_pages` comes before the first bio is sent.
use artifice.Base.{
  Bool, if◌then◌else◌, List, Result, ok, err, einval, eio, Outcome, fault, pending, done,
}
use artifice.Target.Lifecycle.{Handle}
use artifice.Target.Request.{Op, op_read, op_write, op_flush, op_other}
use artifice.Engine.Lifetime.{
  waiting, State, ground, flight, completed, HeldRequest, use_then, use_bio_then, use_pages_then,
  init_request, afs_req_clean, set_encoder, free_encoder,
}

-- What a request finds: whether it is secret sharing, whether the first pointer of its entry is invalid,
-- the contexts of the library, the results of the loops and calls, and whether `afs_read_decode` sets
-- `rebuild_flag`.
pub record RequestCalls : Type 0 where
  pub is_shamir : Bool
  pub is_unmapped : Bool
  pub init_dec : Handle
  pub init_enc : Handle
  pub rebuild_init_enc : Handle
  pub read_pages : Result (Unit {0})
  pub acquired : Result (Unit {0})
  pub write_pages : Result (Unit {0})
  pub rebuild_flag : Bool
  pub rebuild_acquired : Result (Unit {0})
  pub rebuild_write_pages : Result (Unit {0})

-- The bios of the carriers that are sent when a work function ends.
pub data InFlight : Type 0 where
  nothing reads writes : InFlight

abbrev pub Ret : Type 0
Ret = Outcome (Result (Unit {0}) × InFlight × HeldRequest)

-- The state is `REQ_STATE_FLIGHT`.
unfoldable pub if_flight : State → Ret → Ret → Ret
if_flight flight next label = next
if_flight ground next label = label
if_flight completed next label = label

unfoldable pub returns : Result (Unit {0}) → InFlight → Outcome HeldRequest → Ret
returns ret s (done r) = done (ret, s, r)
returns ret s fault = fault
returns ret s pending = pending

unfoldable pub read_sent : Result (Unit {0}) → HeldRequest → Ret
read_sent (ok _) r = done (ok tt, reads, r)
read_sent (err e) r = done (err eio, nothing, r)

-- From `gfshare_ctx_init_dec` on, as `afs_read_request` and `afs_rebuild_request` do.
unfoldable pub read_carriers : RequestCalls → HeldRequest → Ret
unfolding set_encoder read_sent use_pages_then
read_carriers calls r =
    use_pages_then r.carrier_blocks
      (read_sent calls.read_pages (if calls.is_shamir then set_encoder calls.init_dec r else r))

-- `afs_read_request`
unfoldable pub read_request : RequestCalls → HeldRequest → Ret
unfolding read_carriers returns afs_req_clean if_flight
read_request calls r = use_then r.req (
    if_flight r.state
      (if calls.is_unmapped
        then use_bio_then r.bio (returns (ok tt) nothing (afs_req_clean r))
        else read_carriers calls r)
      (done (err einval, nothing, r)))

-- `afs_rebuild_request`
unfoldable pub afs_rebuild_request : RequestCalls → HeldRequest → Ret
unfolding read_carriers returns afs_req_clean if_flight
afs_rebuild_request calls r = use_then r.req (
    if_flight r.state
      (if calls.is_unmapped
        then returns (ok tt) nothing (afs_req_clean r)
        else read_carriers calls r)
      (done (err einval, nothing, r)))

-- The allocation of the blocks and `write_pages`, as `afs_write_request` and `rebuild_blocks` do.
unfoldable pub write_sent : Bool → Result (Unit {0}) → Result (Unit {0}) → HeldRequest → Ret
unfolding free_encoder returns
write_sent is_shamir (err e) written r = returns (err e) nothing (free_encoder is_shamir r)
write_sent is_shamir (ok _) (err e) r = returns (err eio) nothing (free_encoder is_shamir r)
write_sent is_shamir (ok _) (ok _) r = done (ok tt, writes, r)

-- From the encoding on, which uses the context that was made for it. Without secret sharing `encoder` is
-- `NULL`, as `afs_write_request` sets it again.
unfoldable pub write_carriers :
    Bool → Handle → Result (Unit {0}) → Result (Unit {0}) → HeldRequest → Ret
unfolding write_sent set_encoder use_then use_pages_then
write_carriers is_shamir encoder acquired written r = use_pages_then r.carrier_blocks (
    if is_shamir
    then use_then encoder (write_sent is_shamir acquired written (set_encoder encoder r))
    else write_sent is_shamir acquired written r)

-- `afs_write_request`
unfoldable pub write_request : RequestCalls → HeldRequest → Ret
unfolding write_carriers if_flight use_bio_then
write_request calls r = use_then r.req (
    if_flight r.state
      (use_bio_then r.bio
        (write_carriers calls.is_shamir calls.init_enc calls.acquired calls.write_pages r))
      (done (err einval, nothing, r)))

-- The end of `afs_flightq`, `afs_rebuildq` and `afs_cryptoq`: a request that failed is cleaned up.
unfoldable pub finish : Ret → Outcome (InFlight × HeldRequest)
finish (done (ok _, s, r)) = done (s, r)
finish (done (err _, s, r)) = elim (afs_req_clean r) [
  | done r' ↦ done (s, r')
  | fault ↦ fault
  | pending ↦ pending
]
finish fault = fault
finish pending = pending

-- `afs_flightq`
unfoldable pub flightq : Op → RequestCalls → HeldRequest → Outcome (InFlight × HeldRequest)
unfolding finish read_request write_request
flightq op_read calls r = finish (read_request calls (record r { state = flight }))
flightq op_write calls r = finish (write_request calls (record r { state = flight }))
flightq op_flush calls r = finish (done (err einval, nothing, r))
flightq op_other calls r = finish (done (err einval, nothing, r))

-- `afs_rebuildq`
unfoldable pub afs_rebuildq : RequestCalls → HeldRequest → Outcome (InFlight × HeldRequest)
unfolding finish afs_rebuild_request
afs_rebuildq calls r = finish (afs_rebuild_request calls (record r { state = flight }))

-- The status of `rebuild_blocks` is not looked at.
unfoldable pub ignored : Ret → Ret
ignored (done (ret, s, r)) = done (ok tt, s, r)
ignored fault = fault
ignored pending = pending

-- `afs_read_decode`
unfoldable pub read_decode : RequestCalls → HeldRequest → Ret
unfolding ignored write_carriers returns afs_req_clean use_bio_then use_pages_then
read_decode calls r = use_then r.req (
    use_pages_then r.carrier_blocks (
      let rest = use_bio_then r.bio (
        if calls.rebuild_flag
        then ignored (
            write_carriers calls.is_shamir calls.rebuild_init_enc calls.rebuild_acquired
              calls.rebuild_write_pages r)
        else returns (ok tt) nothing (afs_req_clean r)) in
      if calls.is_shamir then use_then r.encoder rest else rest))

-- `afs_cryptoq`, which the last `afs_read_endio` queues.
unfoldable pub afs_cryptoq : RequestCalls → HeldRequest → Outcome (InFlight × HeldRequest)
unfolding finish read_decode
afs_cryptoq calls r = finish (read_decode calls r)

-- The last completion of what a work function sent; that of a write is the end of `afs_write_endio`.
unfoldable pub completes :
    (HeldRequest → Outcome HeldRequest) → Outcome (InFlight × HeldRequest) → Outcome HeldRequest
unfolding afs_req_clean
completes read_end (done (nothing, r)) = done r
completes read_end (done (reads, r)) = read_end r
completes read_end (done (writes, r)) = afs_req_clean r
completes read_end fault = fault
completes read_end pending = pending

-- From the work queue to the last completion. What `afs_cryptoq` sends are writes.
unfoldable pub complete : RequestCalls → Outcome (InFlight × HeldRequest) → Outcome HeldRequest
unfolding completes afs_cryptoq
complete calls o = completes (λ r. completes (λ r'. done r') (afs_cryptoq calls r)) o

-- A request that `afs_map` queues, with its bio.
unfoldable pub run_request : Op → RequestCalls → List Handle → Outcome HeldRequest
unfolding complete flightq init_request
run_request op calls pages =
    complete calls (flightq op calls (record (init_request pages) { bio = waiting }))

-- A request of `afs_rebuild`
unfoldable pub run_rebuild : RequestCalls → List Handle → Outcome HeldRequest
unfolding complete afs_rebuildq init_request
run_rebuild calls pages = complete calls (afs_rebuildq calls (init_request pages))
