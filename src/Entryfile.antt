-- ===== src/Entryfile.antt =====
-- qmdb/src/entryfile: the entries and the buffers that hold them.
pub mod Entry
pub mod EntryVec
