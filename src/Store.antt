-- ===== src/Store.antt =====
-- src/db.rs: the PostgreSQL store. A table is the list of its rows, and a transaction works on a
-- copy of the tables: an error leaves the stored ones as they were.
pub mod Convert
pub mod Ledger
pub mod Evidence
pub mod Chain
pub mod Publish
pub mod Selected
pub mod Refine
pub mod Networks
