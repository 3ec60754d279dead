-- ===== src/Target/Lifecycle/Detect.antt =====
-- `detect_fs` of src/dm_afs.c and `afs_shadow_detect` of src/modules/dm_afs_shadow.c: which file system is
-- found, and whether it leaves a block list. The other detections are arguments.
use artifice.Base.{Bool, true, false, Result, ok, err}
use artifice.Target.Lifecycle.Volume.{Handle, null}

-- What a detection function does: it returns false, or true and fills in `fs->block_list`.
pub data Detection : Type 0 where
  absent : Detection
  present : Handle → Detection

-- `FS_FAT32`, `FS_EXT4`, `FS_NTFS`, `FS_SHADOW`, `FS_ERR`
pub data FileSystem : Type 0 where
  fs_fat32 fs_ext4 fs_ntfs fs_shadow fs_err : FileSystem

-- `afs_shadow_detect`
unfoldable pub afs_shadow_detect : Bool
afs_shadow_detect = false

unfoldable pub after_ntfs : FileSystem × Handle
unfolding afs_shadow_detect
after_ntfs = elim afs_shadow_detect as (λ _. FileSystem × Handle) [
  | true ↦ (fs_shadow, null)
  | false ↦ (fs_err, null)
]

-- The chain of detections: the first that finds its file system wins.
unfoldable pub detections : Detection → Detection → Detection → FileSystem × Handle
unfolding after_ntfs
detections (present list) ext4 ntfs = (fs_fat32, list)
detections absent (present list) ntfs = (fs_ext4, list)
detections absent absent (present list) = (fs_ntfs, list)
detections absent absent absent = after_ntfs

-- `detect_fs`: whether there is a page, the status of reading the first block, and the detections.
unfoldable pub detect_fs :
    Bool → Result (Unit {0}) → Detection → Detection → Detection → FileSystem × Handle
unfolding detections
detect_fs false read fat32 ext4 ntfs = (fs_err, null)
detect_fs true (err e) fat32 ext4 ntfs = (fs_err, null)
detect_fs true (ok _) fat32 ext4 ntfs = detections fat32 ext4 ntfs
