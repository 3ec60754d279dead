-- ===== src/Engine/Tests/Lifetime.antt =====
-- Requests with two pages and the memory that they hold, for src/dm_afs.c and src/dm_afs_engine.c.
use artifice.Base.{◌≡◌, refl, Bool, true, false, List, [], ◌∷◌, ok, err, enospc, done, fault}
use artifice.Target.Lifecycle.{Handle, null, live, freed}
use artifice.Target.Request.{op_read}
use artifice.Engine.Lifetime.{waiting, ended, flight, completed, afs_req_clean}
use artifice.Engine.Handlers.{RequestCalls, run_request, run_rebuild}

abbrev pages : List Handle
pages = live ∷ live ∷ []

-- With secret sharing; `rebuild_blocks` finds no free block.
abbrev calls : Bool → RequestCalls
calls rebuild_flag = record {
  is_shamir = true;
  is_unmapped = false;
  init_dec = live;
  init_enc = live;
  rebuild_init_enc = live;
  read_pages = ok tt;
  acquired = ok tt;
  write_pages = ok tt;
  rebuild_flag = rebuild_flag;
  rebuild_acquired = err enospc;
  rebuild_write_pages = ok tt;
}

reads_whole :
    run_request op_read (calls false) pages
    ≡ done (record {
      req = freed;
      carrier_blocks = freed ∷ freed ∷ [];
      state = completed;
      bio = ended;
      encoder = null;
      allocated_write_page = null;
      lost = null ∷ [];
    })
unfolding run_request afs_req_clean
reads_whole = refl

-- The read of a corrupted block that cannot be rebuilt never ends.
read_stuck :
    run_request op_read (calls true) pages
    ≡ done (record {
      req = live;
      carrier_blocks = pages;
      state = flight;
      bio = waiting;
      encoder = null;
      allocated_write_page = null;
      lost = live ∷ null ∷ [];
    })
unfolding run_request afs_req_clean
read_stuck = refl

rebuild_faults : run_rebuild (calls false) pages ≡ fault
unfolding run_rebuild
rebuild_faults = refl
