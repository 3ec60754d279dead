-- ===== src/Target/Lifecycle.antt =====
-- What `afs_ctr` and `afs_dtr` of src/dm_afs.c hold, with `write_super_block` and `find_super_block` of
-- src/dm_afs_metadata.c as far as they allocate and free: which pointers are live, on every path. What
-- the calls return is an argument (`Calls`); the data that they work on is modelled in Metadata.
mod Volume
pub mod Detect
pub mod SuperBlock
pub mod Constructor
pub mod Destructor
pub mod Held
pub mod Laws
pub mod Destroyed
mod Tests
unfoldable pub use Volume.*
