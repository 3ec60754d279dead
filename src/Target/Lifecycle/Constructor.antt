-- ===== src/Target/Lifecycle/Constructor.antt =====
-- `afs_ctr` of src/dm_afs.c: the checks, what is acquired in which order, and the labels that give it back.
-- `alloc_workqueue` returns a pointer or `NULL`, as the kernel documents; the sizes of the structures are
-- right on every platform, since they are packed. What `build_configuration` returns is not looked at.
use artifice.Base.{
  ℕ, ◌*◌, ◌^◌, ◌%◌, Bool, true, false, List, [], ◌∷◌, if◌then◌else◌, ltb, ◌==◌, Option, none, some,
  Result, ok, err, einval, enomem, enxio, Outcome, fault, pending, done,
}
use artifice.Format.{sector_size}
use artifice.Target.Args.{Args, type_create, type_mount}
use artifice.Target.Lifecycle.Detect.{
  Detection, FileSystem, fs_fat32, fs_ext4, fs_ntfs, fs_shadow, fs_err, detect_fs,
}
use artifice.Target.Lifecycle.SuperBlock.{
  WriteCalls, FindCalls, Status, write_super_block, find_super_block,
}
use artifice.Target.Lifecycle.Volume.{
  Handle, null, live, Volume, is_err_then, free_then, destroy_then,
}

-- `AFS_MIN_SIZE`
abbrev pub min_size : ℕ
min_size = 2 ^ 16

-- What the calls of the constructor return. `rebuild_requests` says of each block whether `init_request` has
-- memory for its request.
pub record Calls : Type 0 where
  pub target_length : ℕ
  pub context_memory : Bool
  pub parse_args : Option Args
  pub dm_get_device : Result (Unit {0})
  pub page_memory : Bool
  pub read_first : Result (Unit {0})
  pub fat32 : Detection
  pub ext4 : Detection
  pub ntfs : Detection
  pub vector_memory : Bool
  pub write_calls : WriteCalls
  pub find_calls : FindCalls
  pub flight_wq : Handle
  pub rebuild_wq : Handle
  pub crypto_wq : Handle
  pub rebuild_requests : List Bool

-- Before anything is acquired; `memset` clears the context.
abbrev pub empty : Volume
empty = record {
  context = null;
  passive_dev = null;
  block_list = null;
  vector = null;
  afs_map = null;
  afs_map_blocks = null;
  afs_ptr_blocks = null;
  flight_wq = null;
  rebuild_wq = null;
  crypto_wq = null;
}

-- The labels, the last first; `ret` is what is returned.
unfoldable pub args_err : Volume → Result (Unit {0}) → Outcome Status
unfolding free_then
args_err v ret = free_then v.context (λ h. done (ret, record v { context = h }))

unfoldable pub fs_err_label : Volume → Result (Unit {0}) → Outcome Status
unfolding destroy_then args_err
fs_err_label v ret = destroy_then v.passive_dev (λ h. args_err (record v { passive_dev = h }) ret)

unfoldable pub vec_err : Volume → Result (Unit {0}) → Outcome Status
unfolding free_then fs_err_label
vec_err v ret = free_then v.block_list (λ h. fs_err_label (record v { block_list = h }) ret)

unfoldable pub sb_err_label : Volume → Result (Unit {0}) → Outcome Status
unfolding free_then vec_err
sb_err_label v ret = free_then v.vector (λ h. vec_err (record v { vector = h }) ret)

unfoldable pub fwq_err : Volume → Result (Unit {0}) → Outcome Status
unfolding free_then sb_err_label
fwq_err v ret = free_then v.afs_ptr_blocks (λ h.
    free_then v.afs_map (λ m. sb_err_label (record v { afs_ptr_blocks = h; afs_map = m }) ret))

-- `queue_work`, which reads the queue.
unfoldable pub queue_then : Handle → Outcome Status → Outcome Status
queue_then live next = next
queue_then _ next = fault

-- `afs_rebuild`: a request for each block, which `init_request` may fail to allocate, goes to the queue. The
-- request and the queue are used in any case, so that one that is `NULL` is a fault.
unfoldable pub afs_rebuild : Handle → List Bool → Outcome Status → Outcome Status
unfolding queue_then
afs_rebuild wq [] next = next
afs_rebuild wq (has_request ∷ requests) next =
    let rest = afs_rebuild wq requests next in if has_request then queue_then wq rest else fault

-- The queues, all three created before the first is looked at, and for a mount the repair.
unfoldable pub with_queues : Bool → Calls → Volume → Outcome Status
unfolding is_err_then fwq_err afs_rebuild
with_queues is_mount calls v =
    let v' = record v {
      flight_wq = calls.flight_wq;
      rebuild_wq = calls.rebuild_wq;
      crypto_wq = calls.crypto_wq;
    } in
    let built : Outcome Status = done (ok tt, v') in
    is_err_then calls.flight_wq (fwq_err v') (
      is_err_then calls.rebuild_wq (fwq_err v') (
        is_err_then calls.crypto_wq (fwq_err v')
          (if is_mount then afs_rebuild calls.rebuild_wq calls.rebuild_requests built else built)))

-- What follows `write_super_block` or `find_super_block`.
unfoldable pub super_block_then : Bool → Calls → Outcome Status → Outcome Status
unfolding with_queues sb_err_label
super_block_then is_mount calls fault = fault
super_block_then is_mount calls pending = pending
super_block_then is_mount calls (done (ok _, v)) = with_queues is_mount calls v
super_block_then is_mount calls (done (err e, v)) = sb_err_label v (err e)

-- The `switch` over the type of the instance.
unfoldable pub with_super_block : Calls → Args → Volume → Outcome Status
unfolding super_block_then write_super_block find_super_block with_queues
with_super_block calls args v =
    if args.instance_type == type_create
    then super_block_then false calls (write_super_block calls.write_calls v)
    else if args.instance_type == type_mount
    then super_block_then true calls (find_super_block calls.find_calls v)
    else with_queues false calls v

unfoldable pub with_vector : Calls → Args → Bool → Volume → Outcome Status
unfolding with_super_block vec_err
with_vector calls args true v = with_super_block calls args (record v { vector = live })
with_vector calls args false v = vec_err v (err enomem)

-- The `switch` over the file system that is detected: without one the constructor goes on.
unfoldable pub with_file_system : Calls → Args → Volume → FileSystem → Outcome Status
unfolding with_vector fs_err_label
with_file_system calls args v fs_fat32 = with_vector calls args calls.vector_memory v
with_file_system calls args v fs_ext4 = with_vector calls args calls.vector_memory v
with_file_system calls args v fs_ntfs = with_vector calls args calls.vector_memory v
with_file_system calls args v fs_err = with_vector calls args calls.vector_memory v
with_file_system calls args v fs_shadow = fs_err_label v (err enxio)

unfoldable pub with_device : Calls → Args → Result (Unit {0}) → Volume → Outcome Status
unfolding detect_fs with_file_system args_err
with_device calls args (err e) v = args_err v (err e)
with_device calls args (ok _) v =
    let (found, list) =
      detect_fs calls.page_memory calls.read_first calls.fat32 calls.ext4 calls.ntfs in
    with_file_system calls args (record v { passive_dev = live; block_list = list }) found

unfoldable pub with_args : Calls → Option Args → Volume → Outcome Status
unfolding with_device args_err
with_args calls none v = args_err v (err einval)
with_args calls (some args) v = with_device calls args calls.dm_get_device v

unfoldable pub with_context : Calls → Bool → Volume → Outcome Status
unfolding with_args
with_context calls false v = done (err enomem, v)
with_context calls true v = with_args calls calls.parse_args (record v { context = live })

-- `afs_ctr`
unfoldable pub afs_ctr : Calls → Outcome Status
unfolding with_context
afs_ctr calls =
    if ltb (calls.target_length * sector_size % 2 ^ 64) min_size
    then done (err einval, empty)
    else with_context calls calls.context_memory empty
