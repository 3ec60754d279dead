-- ===== src/Engine.antt =====
-- src/dm_afs_engine.c: the queue of requests, the map entry of a block, and what happens to reads,
-- writes and repairs of blocks. The requests are those of `afs_map` in src/dm_afs.c.
mod Entry
mod Carriers
mod Cleaned
mod Handlers
mod Lifetime
mod Pages
mod Released
mod Queue
mod Requests
mod Segments
mod Tests
