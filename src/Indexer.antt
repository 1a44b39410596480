-- ===== src/Indexer.antt =====
-- qmdb/src/indexer: the index from key hashes to file positions.
pub mod Inmem
