-- ===== src/Indexer/Inmem.antt =====
-- qmdb/src/indexer/inmem.rs: the index in memory, sorted pairs in leaves below a B-tree.
pub mod BTree
pub mod Leaf
pub mod BufList
pub mod Unit
pub mod Adjacent
pub mod Builder
pub mod Generic
