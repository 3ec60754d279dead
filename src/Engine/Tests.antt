-- ===== src/Engine/Tests.antt =====
-- Concrete runs for src/dm_afs_engine.c.
mod Lifetime
mod Queue
mod Requests
