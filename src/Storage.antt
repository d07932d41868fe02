-- ===== src/Storage.antt =====
-- vsearch/storage.py: the write-ahead log, snapshots, and durable shards.
pub mod Record
pub mod Log
pub mod Durable
pub mod Snapshot
pub mod HnswShard
pub mod Tests
