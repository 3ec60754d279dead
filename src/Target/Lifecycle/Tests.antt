-- ===== src/Target/Lifecycle/Tests.antt =====
-- The constructor and the destructor on runs that succeed and fail.
use artifice.Base.{◌≡◌, refl, true, false, some, Result, ok, err, eio, fault, done, [], ◌∷◌, ◌++◌}
use artifice.Target.Lifecycle.Constructor.{Calls, empty, afs_ctr}
use artifice.Target.Lifecycle.Destroyed.{Destroys, has_queues, afs_dtr-afs_ctr}
use artifice.Target.Lifecycle.Destructor.{afs_dtr, keeps_waiting}
use artifice.Target.Lifecycle.Detect.{absent, present}
use artifice.Target.Lifecycle.Held.{AreDocumented}
use artifice.Target.Lifecycle.Volume.{Handle, null, live, freed, Volume}

-- A creation on FAT32, with the status of the pointer blocks and the queue for encryption.
abbrev creates : Result (Unit {0}) → Handle → Calls
creates write_ptr_blocks crypto_wq = record {
  target_length = 4096;
  context_memory = true;
  parse_args = some (record {
    passphrase = 112 ∷ [];
    shadow_passphrase = [];
    passive_dev = 115 ∷ [];
    entropy_dir = 47 ∷ [];
    instance_type = 0;
  });
  dm_get_device = ok tt;
  page_memory = true;
  read_first = ok tt;
  fat32 = present live;
  ext4 = absent;
  ntfs = absent;
  vector_memory = true;
  write_calls = record {
    afs_create_map = ok tt;
    afs_create_map_blocks = ok tt;
    ptr_blocks_memory = true;
    write_ptr_blocks = write_ptr_blocks;
    write_replicas = ok tt;
  };
  find_calls = record {
    read_super_block = ok tt;
    afs_create_map = ok tt;
    afs_fill_map = ok tt;
    ptr_blocks_memory = true;
    rebuild_ptr_blocks = ok tt;
  };
  flight_wq = live;
  rebuild_wq = live;
  crypto_wq = crypto_wq;
  rebuild_requests = true ∷ [];
}

abbrev created : Volume
created = record {
  context = live;
  passive_dev = live;
  block_list = live;
  vector = live;
  afs_map = live;
  afs_map_blocks = freed;
  afs_ptr_blocks = live;
  flight_wq = live;
  rebuild_wq = live;
  crypto_wq = live;
}

creates-AreDocumented : AreDocumented (creates (ok tt) live)
creates-AreDocumented = record {
  fat32 = tt;
  ext4 = tt;
  ntfs = tt;
  flight_wq = tt;
  rebuild_wq = tt;
  crypto_wq = tt;
}

creates_lem : afs_ctr (creates (ok tt) live) ≡ done (ok tt, created)
unfolding afs_ctr
creates_lem = refl

-- The pointer blocks are lost.
pointer_blocks_lost :
    afs_ctr (creates (err eio) live)
    ≡ done (
      err eio,
      record empty {
        context = freed;
        passive_dev = freed;
        block_list = freed;
        vector = freed;
        afs_map = freed;
        afs_map_blocks = freed;
        afs_ptr_blocks = live;
      },
    )
unfolding afs_ctr
pointer_blocks_lost = refl

-- Without the queue for encryption the constructor succeeds, and the destructor faults.
queue_missing :
    (afs_ctr (creates (ok tt) null) ≡ done (ok tt, record created { crypto_wq = null }))
    × (afs_dtr ((true, true) ∷ []) (ok tt) (record created { crypto_wq = null }) ≡ fault)
unfolding afs_ctr afs_dtr
queue_missing = (refl, refl)

afs_dtr-afs_ctr_example :
    Destroys
      (has_queues (creates (ok tt) live))
      (afs_dtr (((false, false) ∷ []) ++ ((true, false) ∷ [])) (ok tt) created)
unfolding keeps_waiting
afs_dtr-afs_ctr_example =
    afs_dtr-afs_ctr (creates (ok tt) live) ((false, false) ∷ []) [] (true, false) (ok tt) created
      creates-AreDocumented (λ h. (refl, refl, tt)) creates_lem refl
