-- ===== src/Lib.antt =====
-- Artifice, a device-mapper target that keeps a hidden volume in the free blocks of a public file
-- system: each data block becomes several carrier blocks, which a map locates.
--
-- Which file models which part of the repository:
--
-- Base           lists, bytes, C results and outcomes that the other files share.
-- Kernel         interfaces for the Linux kernel's bit operations and block device; the kernel's code
--                is a parameter everywhere.
-- BitVector      src/lib/bit_vector.c: bit_vector_create, _set, _clear and _get as create, set, clear, get.
-- Allocation     src/dm_afs_allocation.c: allocation_get, _set, _free and acquire_block over a bit
--                vector and the free list of a public file system (struct afs_passive_fs).
-- Format         include/dm_afs_format.h and include/dm_afs_config.h: constants and struct afs_config.
-- Io             src/dm_afs_io.c: read_page and write_page.
-- Metadata       src/dm_afs_metadata.c: build_configuration, binary_search (Search), afs_create_map,
--                afs_create_map_blocks and the copying of entries in afs_fill_map (Blocks),
--                write_map_blocks (Pointers), write_ptr_blocks and rebuild_ptr_blocks
--                (Pointers.Chain), afs_fill_map at the pointers of the super block and
--                rebuild_allocation_vector (Fill), and where write_super_block and find_super_block
--                put and find the super block (Super).
-- Fat32          src/modules/dm_afs_fat32.c: the boot sector (Fat32), the FAT and its free list (Table).
-- Ntfs           src/modules/dm_afs_ntfs.c: the boot sector, clusters and records (Boot), and the free
--                list of extract_bitmap (Bitmap).
-- Ext4           src/modules/dm_afs_ext4.c: the super block and new_disk (Ext4), read_group_descs
--                (Descriptors), read_bitmap and is_pow_n (Bitmap), read_bitmaps and afs_ext4_detect
--                (Groups).
-- Speck          src/lib/speck.c: the block cipher (Rounds) and its counter mode (Counter).
-- Aont           src/lib/aont.c: encode_aont_package and decode_aont_package (Package); memory is in
--                words of 64 bits, as the casts have it.
-- Engine         src/dm_afs_engine.c: the tree of requests (Queue), the bytes of a map entry (Entry), the
--                copies between bios and data blocks (Segments), the blocks of the carriers (Carriers),
--                their pages (Pages), and afs_write_request, afs_read_request, afs_read_decode,
--                afs_write_endio and rebuild_blocks (Requests); what a request owns and afs_req_clean (Lifetime), and what
--                these functions, afs_rebuild_request, the work queues and afs_rebuild do with it
--                (Handlers).
-- Target         src/dm_afs.c: parse_afs_args (Args), the requests that afs_map makes of bios (Request), and
--                what detect_fs, afs_ctr and afs_dtr acquire and give back, with write_super_block,
--                find_super_block and afs_shadow_detect (Lifecycle).
--
-- How they interact: a detection module such as Fat32, Ext4 or Ntfs makes the free list, Allocation picks
-- blocks from it, Metadata lays the map out in map blocks, which Io writes to the device. Target makes
-- requests of bios, Engine encodes a block into carriers, as Aont does with Speck, and finds blocks for
-- them with Allocation.
--
-- Pointers that may be NULL are options, errors are values, undefined behaviour is the outcome
-- `fault`, and a loop that waits for further random numbers is `pending`. Random numbers and the
-- success of allocations are arguments. Unsigned fields keep their width: 8, 32 or 64 bits. The loop of
-- binary_search runs on fuel, one more than the length, which is enough for the halving; that of
-- is_pow_n on the number itself. The device
-- is a function of sectors with laws on pages that are equal or apart.
--
-- The engine's locks make each queue operation a step, and each completion of a bio is one; the
-- balancing of the tree, the encoding of a block and the checksum are parameters. The walk of afs_eq_add
-- runs on fuel, one more than the requests in the tree.
--
-- Not modelled: the data of secret sharing, which afs_ctr never chooses, the attributes and data runs of NTFS files, the debug output of the EXT4 module,
-- what the super block says, the copies of entries from map blocks that pointer blocks name, SHA-3,
-- the crypto wrappers and entropy; src/dm_afs_repair.c is empty. The other coding and hash libraries under src/lib are
-- copies of other projects.
pub mod Allocation
pub mod Aont
pub mod Base
pub mod BitVector
pub mod Engine
pub mod Ext4
pub mod Fat32
pub mod Format
pub mod Io
pub mod Kernel
pub mod Metadata
pub mod Ntfs
pub mod Speck
pub mod Target
