-- ===== src/Api.antt =====
-- src/api.rs: the handlers of the HTTP API and what they compute.
pub mod Cursor
pub mod Halving
pub mod Amount
pub mod Rows
pub mod Pages
pub mod Listing
pub mod Followed
pub mod Search
pub mod Lookup
pub mod Evidence
pub mod Detail
pub mod Readiness
