-- ===== src/Indexer.antt =====
-- src/indexer.rs: the synchronizer. A pass asks the node, whose every answer may differ from the one
-- before, and runs transactions on the database, each of which may fail.
pub mod Sync
pub mod Fetch
pub mod Pass
pub mod Triple
pub mod Keeps
pub mod Ancestor
pub mod Safe
pub mod Stays
pub mod Finds
pub mod Loop
