-- ===== src/Config.antt =====
-- src/config.rs: the configuration, read from the environment and validated. The parsers of URLs and
-- of socket addresses, and the names that the operating system knows, are parameters.
pub mod Env
pub mod Network
pub mod Load
pub mod Accepted
pub mod Loaded
