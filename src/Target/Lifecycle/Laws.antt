-- ===== src/Target/Lifecycle/Laws.antt =====
-- What is held at the end of `afs_ctr` and `afs_dtr` of src/dm_afs.c.
use artifice.Base.{
  if◌then◌else◌, done, List, [], ◌∷◌, ◌≡◌, ◌⊎◌, inl, inr, refl, ◌*◌, ◌%◌, ◌^◌, Bool, true, false,
  Bool-cases, ltb, ◌==◌, Option, none, some, Result, ok, err, Errno, Outcome,
}
use artifice.Format.{sector_size}
use artifice.Target.Args.{Args, type_create, type_mount}
use artifice.Target.Lifecycle.Detect.{
  Detection, absent, present, FileSystem, fs_fat32, fs_ext4, fs_ntfs, fs_shadow, fs_err, detections,
  detect_fs,
}
use artifice.Target.Lifecycle.SuperBlock.{
  Status, assert_then, write_super_block, write_ptrs, find_super_block, find_ptrs,
}
use artifice.Target.Lifecycle.Constructor.{
  queue_then, afs_rebuild, Calls, min_size, empty, with_queues, vec_err, super_block_then,
  with_super_block, with_vector, with_file_system, with_device, with_args, with_context, afs_ctr,
}
use artifice.Target.Lifecycle.Volume.{Handle, null, live, freed, error_pointer, Volume, is_err_then}
use artifice.Target.Lifecycle.Held.{
  AreQueued, IsMountable, CanRebuild, IsReleased, IsFresh, HasFresh, AreDocumented, IsPtrFailure,
  IsGivenBack, IsUnshadowed, Ends,
}

module _ (P : Outcome Status → Type 0) (label : Result (Unit {0}) → Outcome Status)
    (next : Outcome Status) where
  assert_then_lem :
      (r : Result (Unit {0}))
      → ((e : Errno) → r ≡ err e → P (label (err e)))
      → P next
      → P (assert_then r label next)
  unfolding assert_then
  assert_then_lem (ok _) h k = k
  assert_then_lem (err e) h k = h e refl

  is_err_then_lem : (h : Handle) → IsFresh h → P next → P (is_err_then h label next)
  unfolding is_err_then
  is_err_then_lem null f k = k
  is_err_then_lem live f k = k
  is_err_then_lem freed f k = absurd f
  is_err_then_lem (error_pointer e) f k = absurd f

module _ (calls : Calls) (documented : AreDocumented calls) where
  -- Between the context and the queues.
  abbrev volume : Handle → Handle → Handle → Handle → Handle → Volume
  volume list vector map blocks ptrs = record {
    context = live;
    passive_dev = live;
    block_list = list;
    vector = vector;
    afs_map = map;
    afs_map_blocks = blocks;
    afs_ptr_blocks = ptrs;
    flight_wq = null;
    rebuild_wq = null;
    crypto_wq = null;
  }

  vec_err_lem :
      (list vector map blocks ptrs : Handle) (e : Errno)
      → IsFresh list
      → IsReleased vector
      → IsReleased map
      → IsReleased blocks
      → IsReleased ptrs ⊎ IsPtrFailure calls
      → Ends calls (vec_err (volume list vector map blocks ptrs) (err e))
  unfolding vec_err
  vec_err_lem null vector map blocks ptrs e f a b c d = (tt, tt, tt, a, b, c, d, tt, tt, tt)
  vec_err_lem live vector map blocks ptrs e f a b c d = (tt, tt, tt, a, b, c, d, tt, tt, tt)
  vec_err_lem freed vector map blocks ptrs e f a b c d = absurd f
  vec_err_lem (error_pointer _) vector map blocks ptrs e f a b c d = absurd f

  afs_rebuild_lem :
      (wq : Handle) (requests : List Bool) (next : Outcome Status)
      → AreQueued wq requests
      → afs_rebuild wq requests next ≡ next
  unfolding afs_rebuild queue_then
  afs_rebuild_lem wq [] next q = refl
  afs_rebuild_lem wq (has_request ∷ requests) next (r, l, q) =
      let rest = afs_rebuild_lem wq requests next q in rw (r, rest, l) refl

  repaired :
      (is_mount : Bool) (list map blocks ptrs : Handle)
      → (is_mount ≡ true → AreQueued calls.rebuild_wq calls.rebuild_requests)
      → IsFresh list
      → IsFresh map
      → IsReleased blocks
      → IsFresh ptrs
      → let built : Outcome Status = done (
        ok tt,
        record (volume list live map blocks ptrs) {
          flight_wq = calls.flight_wq;
          rebuild_wq = calls.rebuild_wq;
          crypto_wq = calls.crypto_wq;
        },
      ) in
        Ends calls
          (if is_mount then afs_rebuild calls.rebuild_wq calls.rebuild_requests built else built)
  repaired true list map blocks ptrs can f a b c =
      rw (afs_rebuild_lem calls.rebuild_wq calls.rebuild_requests _ (can refl)) (record {
        context = refl;
        passive_dev = refl;
        block_list = f;
        vector = refl;
        afs_map = a;
        afs_map_blocks = b;
        afs_ptr_blocks = c;
        flight_wq = refl;
        rebuild_wq = refl;
        crypto_wq = refl;
      })
  repaired false list map blocks ptrs can f a b c = record {
    context = refl;
    passive_dev = refl;
    block_list = f;
    vector = refl;
    afs_map = a;
    afs_map_blocks = b;
    afs_ptr_blocks = c;
    flight_wq = refl;
    rebuild_wq = refl;
    crypto_wq = refl;
  }

  with_queues_lem :
      (is_mount : Bool) (list map blocks ptrs : Handle)
      → (is_mount ≡ true → AreQueued calls.rebuild_wq calls.rebuild_requests)
      → IsFresh list
      → IsFresh map
      → IsReleased blocks
      → IsFresh ptrs
      → Ends calls (with_queues is_mount calls (volume list live map blocks ptrs))
  unfolding with_queues
  with_queues_lem is_mount list map blocks ptrs can f a b c =
      is_err_then_lem (Ends calls) _ _ calls.flight_wq documented.flight_wq (
        is_err_then_lem (Ends calls) _ _ calls.rebuild_wq documented.rebuild_wq (
          is_err_then_lem (Ends calls) _ _ calls.crypto_wq documented.crypto_wq
            (repaired is_mount list map blocks ptrs can f a b c)))

  module _ (list : Handle) (fresh : IsFresh list) where
    lost :
        (vector map blocks ptrs : Handle) (e : Errno)
        → IsReleased vector
        → IsReleased map
        → IsReleased blocks
        → IsReleased ptrs ⊎ IsPtrFailure calls
        → Ends calls (vec_err (volume list vector map blocks ptrs) (err e))
    lost vector map blocks ptrs e a b c d = vec_err_lem list vector map blocks ptrs e fresh a b c d

    write_ptrs_lem :
        (b : Bool)
        → Ends calls (
            super_block_then false calls
              (write_ptrs calls.write_calls b (volume list live live live null)))
    unfolding write_ptrs super_block_then
    write_ptrs_lem false = lost _ _ _ _ _ tt tt tt (inl tt)
    write_ptrs_lem true =
        assert_then_lem (λ o. Ends calls (super_block_then false calls o)) _ _
          calls.write_calls.write_ptr_blocks (λ e h. lost _ _ _ _ _ tt tt tt (inr (inl (e, h))))
          (assert_then_lem (λ o. Ends calls (super_block_then false calls o)) _ _
            calls.write_calls.write_replicas (λ e h. lost _ _ _ _ _ tt tt tt (inl tt))
            (with_queues_lem false list live freed live (λ h. absurd cc) fresh tt tt tt))

    write_super_block_lem : Ends calls (
        super_block_then false calls
          (write_super_block calls.write_calls (volume list live null null null)))
    unfolding write_super_block super_block_then
    write_super_block_lem =
        assert_then_lem (λ o. Ends calls (super_block_then false calls o)) _ _
          calls.write_calls.afs_create_map (λ e h. lost _ _ _ _ _ tt tt tt (inl tt))
          (assert_then_lem (λ o. Ends calls (super_block_then false calls o)) _ _
            calls.write_calls.afs_create_map_blocks (λ e h. lost _ _ _ _ _ tt tt tt (inl tt))
            (write_ptrs_lem calls.write_calls.ptr_blocks_memory))

    find_ptrs_lem :
        (b : Bool)
        → AreQueued calls.rebuild_wq calls.rebuild_requests
        → Ends calls (
            super_block_then true calls
              (find_ptrs calls.find_calls b (volume list live live null null)))
    unfolding find_ptrs super_block_then
    find_ptrs_lem false queued = lost _ _ _ _ _ tt tt tt (inl tt)
    find_ptrs_lem true queued =
        assert_then_lem (λ o. Ends calls (super_block_then true calls o)) _ _
          calls.find_calls.rebuild_ptr_blocks (λ e h. lost _ _ _ _ _ tt tt tt (inr (inr (e, h))))
          (with_queues_lem true list live null live (λ _. queued) fresh tt tt tt)

    find_super_block_lem :
        AreQueued calls.rebuild_wq calls.rebuild_requests
        → Ends calls (
            super_block_then true calls
              (find_super_block calls.find_calls (volume list live null null null)))
    unfolding find_super_block super_block_then
    find_super_block_lem queued =
        assert_then_lem (λ o. Ends calls (super_block_then true calls o)) _ _
          calls.find_calls.read_super_block (λ e h. lost _ _ _ _ _ tt tt tt (inl tt))
          (assert_then_lem (λ o. Ends calls (super_block_then true calls o)) _ _
            calls.find_calls.afs_create_map (λ e h. lost _ _ _ _ _ tt tt tt (inl tt))
            (assert_then_lem (λ o. Ends calls (super_block_then true calls o)) _ _
              calls.find_calls.afs_fill_map (λ e h. lost _ _ _ _ _ tt tt tt (inl tt))
              (find_ptrs_lem calls.find_calls.ptr_blocks_memory queued)))

    with_super_block_lem :
        (args : Args)
        → ((args.instance_type == type_mount) ≡ true
            → AreQueued calls.rebuild_wq calls.rebuild_requests)
        → Ends calls (with_super_block calls args (volume list live null null null))
    unfolding with_super_block
    with_super_block_lem args can = elim (Bool-cases (args.instance_type == type_create)) [
      | inl create ↦ rw create write_super_block_lem
      | inr other ↦ elim (Bool-cases (args.instance_type == type_mount)) [
        | inl mount ↦ rw (other, mount) (find_super_block_lem (can mount))
        | inr shadow ↦
            rw (other, shadow)
              (with_queues_lem false list null null null (λ h. absurd cc) fresh tt tt tt)
      ]
    ]

    with_vector_lem :
        (args : Args) (b : Bool)
        → ((args.instance_type == type_mount) ≡ true
            → AreQueued calls.rebuild_wq calls.rebuild_requests)
        → Ends calls (with_vector calls args b (volume list null null null null))
    unfolding with_vector
    with_vector_lem args true can = with_super_block_lem args can
    with_vector_lem args false can = lost _ _ _ _ _ tt tt tt (inl tt)

    with_file_system_lem :
        (args : Args) (found : FileSystem)
        → IsUnshadowed found
        → ((args.instance_type == type_mount) ≡ true
            → AreQueued calls.rebuild_wq calls.rebuild_requests)
        → Ends calls (with_file_system calls args (volume list null null null null) found)
    unfolding with_file_system
    with_file_system_lem args fs_fat32 h can = with_vector_lem args calls.vector_memory can
    with_file_system_lem args fs_ext4 h can = with_vector_lem args calls.vector_memory can
    with_file_system_lem args fs_ntfs h can = with_vector_lem args calls.vector_memory can
    with_file_system_lem args fs_err h can = with_vector_lem args calls.vector_memory can
    with_file_system_lem args fs_shadow h can = absurd h

  detections_lem :
      (fat32 ext4 ntfs : Detection)
      → HasFresh fat32
      → HasFresh ext4
      → HasFresh ntfs
      → IsUnshadowed (detections fat32 ext4 ntfs).0 × IsFresh (detections fat32 ext4 ntfs).1
  unfolding detections
  detections_lem (present list) ext4 ntfs a b c = (tt, a)
  detections_lem absent (present list) ntfs a b c = (tt, b)
  detections_lem absent absent (present list) a b c = (tt, c)
  detections_lem absent absent absent a b c = (tt, tt)

  detect_fs_lem :
      (page : Bool) (read : Result (Unit {0}))
      → IsUnshadowed (detect_fs page read calls.fat32 calls.ext4 calls.ntfs).0
        × IsFresh (detect_fs page read calls.fat32 calls.ext4 calls.ntfs).1
  unfolding detect_fs
  detect_fs_lem false read = (tt, tt)
  detect_fs_lem true (err e) = (tt, tt)
  detect_fs_lem true (ok _) =
      detections_lem calls.fat32 calls.ext4 calls.ntfs documented.fat32 documented.ext4
        documented.ntfs

  given_back : IsGivenBack calls (record empty { context = freed })
  given_back = (tt, tt, tt, tt, tt, tt, inl tt, tt, tt, tt)

  nothing_held : IsGivenBack calls empty
  nothing_held = (tt, tt, tt, tt, tt, tt, inl tt, tt, tt, tt)

  with_device_lem :
      (args : Args) (r : Result (Unit {0}))
      → ((args.instance_type == type_mount) ≡ true
          → AreQueued calls.rebuild_wq calls.rebuild_requests)
      → Ends calls (with_device calls args r (record empty { context = live }))
  unfolding with_device
  with_device_lem args (err e) can = given_back
  with_device_lem args (ok _) can =
      let (shadow, fresh) = detect_fs_lem calls.page_memory calls.read_first in
      with_file_system_lem _ fresh args _ shadow can

  with_args_lem :
      (r : Option Args)
      → IsMountable calls.rebuild_wq calls.rebuild_requests r
      → Ends calls (with_args calls r (record empty { context = live }))
  unfolding with_args
  with_args_lem none can = given_back
  with_args_lem (some args) can = with_device_lem args calls.dm_get_device can

  with_context_lem : (b : Bool) → CanRebuild calls → Ends calls (with_context calls b empty)
  unfolding with_context
  with_context_lem true can = with_args_lem calls.parse_args can
  with_context_lem false can = nothing_held

  pub afs_ctr-Ends : CanRebuild calls → Ends calls (afs_ctr calls)
  unfolding afs_ctr
  afs_ctr-Ends can = elim (Bool-cases (ltb (calls.target_length * sector_size % 2 ^ 64) min_size)) [
    | inl small ↦ rw small nothing_held
    | inr large ↦ rw large (with_context_lem calls.context_memory can)
  ]
