-- ===== src/Ntfs.antt =====
-- src/modules/dm_afs_ntfs.c: the boot sector of an NTFS volume, the reading of clusters, the loop over the
-- records of the master file table up to its first read, and the free list that is made of the bitmap.
-- Multi-byte fields are little-endian. What `read_file` finds of the bitmap is an argument.
pub mod Boot
pub mod Bitmap
mod Tests
