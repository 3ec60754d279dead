-- ===== src/Target/Lifecycle/Held.antt =====
-- What the constructor and the destructor of src/dm_afs.c hold when they end.
use artifice.Base.{
  Bool, true, ◌==◌, List, [], ◌∷◌, Option, none, some, ◌≡◌, ◌⊎◌, ok, err, Errno, Outcome, done,
}
use artifice.Target.Args.{Args, type_mount}
use artifice.Target.Lifecycle.Detect.{Detection, absent, present, FileSystem, fs_shadow}
use artifice.Target.Lifecycle.SuperBlock.{Status}
use artifice.Target.Lifecycle.Constructor.{Calls}
use artifice.Target.Lifecycle.Volume.{Handle, null, live, Volume}

-- Nothing is held.
abbrev pub IsReleased : Handle → Type 0
IsReleased live = ⊥
IsReleased _ = Unit {0}

-- Memory that is held, or none: what an allocation returns.
abbrev pub IsFresh : Handle → Type 0
IsFresh null = Unit {0}
IsFresh live = Unit {0}
IsFresh _ = ⊥

abbrev pub HasFresh : Detection → Type 0
HasFresh absent = Unit {0}
HasFresh (present list) = IsFresh list

-- The calls return what they document.
pub record AreDocumented (calls : Calls) : Type 0 where
  pub fat32 : HasFresh calls.fat32
  pub ext4 : HasFresh calls.ext4
  pub ntfs : HasFresh calls.ntfs
  pub flight_wq : IsFresh calls.flight_wq
  pub rebuild_wq : IsFresh calls.rebuild_wq
  pub crypto_wq : IsFresh calls.crypto_wq

-- Each request of `afs_rebuild` has memory, and there is the queue for it.
abbrev pub AreQueued : Handle → List Bool → Type 0
AreQueued wq [] = Unit {0}
AreQueued wq (has_request ∷ requests) = (has_request ≡ true) × (wq ≡ live) × AreQueued wq requests

-- Where the arguments ask for a mount, the requests of `afs_rebuild` are queued.
abbrev pub IsMountable : Handle → List Bool → Option Args → Type 0
IsMountable wq requests none = Unit {0}
IsMountable wq requests (some args) =
    (args.instance_type == type_mount) ≡ true → AreQueued wq requests

abbrev pub CanRebuild : Calls → Type 0
CanRebuild calls = IsMountable calls.rebuild_wq calls.rebuild_requests calls.parse_args

-- The pointer blocks could not be written, or not be read.
abbrev pub IsPtrFailure : Calls → Type 0
IsPtrFailure calls =
    ((e : Errno) × (calls.write_calls.write_ptr_blocks ≡ err e))
    ⊎ ((e : Errno) × (calls.find_calls.rebuild_ptr_blocks ≡ err e))

-- Nothing of the volume is held, but for the pointer blocks, of which `Rest` holds.
abbrev pub IsEmptied : Type 0 → Volume → Type 0
IsEmptied Rest v =
    IsReleased v.context
    × IsReleased v.passive_dev
    × IsReleased v.block_list
    × IsReleased v.vector
    × IsReleased v.afs_map
    × IsReleased v.afs_map_blocks
    × Rest
    × IsReleased v.flight_wq
    × IsReleased v.rebuild_wq
    × IsReleased v.crypto_wq

-- All but the pointer blocks, which are lost where they fail.
abbrev pub IsGivenBack : Calls → Volume → Type 0
IsGivenBack calls v = IsEmptied (IsReleased v.afs_ptr_blocks ⊎ IsPtrFailure calls) v

-- What a volume that was constructed holds.
pub record IsConstructed (calls : Calls) (v : Volume) : Type 0 where
  pub context : v.context ≡ live
  pub passive_dev : v.passive_dev ≡ live
  pub block_list : IsFresh v.block_list
  pub vector : v.vector ≡ live
  pub afs_map : IsFresh v.afs_map
  pub afs_map_blocks : IsReleased v.afs_map_blocks
  pub afs_ptr_blocks : IsFresh v.afs_ptr_blocks
  pub flight_wq : v.flight_wq ≡ calls.flight_wq
  pub rebuild_wq : v.rebuild_wq ≡ calls.rebuild_wq
  pub crypto_wq : v.crypto_wq ≡ calls.crypto_wq

-- `detect_fs` does not find an instance of Artifice.
abbrev pub IsUnshadowed : FileSystem → Type 0
IsUnshadowed fs_shadow = ⊥
IsUnshadowed _ = Unit {0}

-- The run ends without a fault, with one of the two.
abbrev pub Ends : Calls → Outcome Status → Type 0
Ends calls (done (ok _, v)) = IsConstructed calls v
Ends calls (done (err e, v)) = IsGivenBack calls v
Ends calls _ = ⊥
