-- ===== src/Analytics.antt =====
-- src/analytics.rs: the numbers of the charts and of the rich list. What a query answers is an
-- argument: its rows, or the failure of the database.
pub mod Exact
pub mod History
pub mod RichList
pub mod AddressStats
pub mod MergeMining
