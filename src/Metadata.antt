-- ===== src/Metadata.antt =====
-- src/dm_afs_metadata.c, a module to each part.
pub mod Configuration
pub mod Search
pub mod Blocks
pub mod Pointers
pub mod Fill
pub mod Super
mod Tests
