-- ===== src/Updater.antt =====
-- qmdb/src/updater.rs: how a shard reads and changes its entries.
pub mod Env
pub mod Reading
pub mod Kv
pub mod Tasks
