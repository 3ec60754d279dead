-- ===== src/Target.antt =====
-- src/dm_afs.c, the device-mapper target: its arguments, and the requests that it makes of bios.
pub mod Args
pub mod Request
pub mod Lifecycle
mod Tests
