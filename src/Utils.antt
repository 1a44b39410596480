-- ===== src/Utils.antt =====
-- qmdb/src/utils: the parts that the other modules stand on.
pub mod ActiveBits
pub mod BytesCache
pub mod ChangeSet
pub mod Hasher
pub mod ShortList
