-- ===== src/Filtering.antt =====
-- vsearch/filtering.py: filters on payloads, and the index that answers them.
pub mod Tests
pub mod Key
pub mod Index
pub mod Matching
pub mod Wire
