-- ===== src/Cluster.antt =====
-- vsearch/cluster.py: routing of writes, plans of searches, and the merge of the shards' results.
pub mod Tests
pub mod Merge
pub mod Shard
pub mod Local
pub mod Routing
pub mod Namespace
