-- ===== src/Engine/Requests/Rebuilt.antt =====
-- What `rebuild_blocks` of src/dm_afs_engine.c leaves for later reads.
