-- ===== src/Tests.antt =====
-- Concrete runs of the functions of qmdb/src and hpfile/src, and the theorems at concrete inputs.
mod Data
mod Bitmaps
mod Trees
mod Proofs
mod Entries
mod Updates
mod Files
mod Lists
mod Caches
mod Hubs
mod Indexes
mod ChangeSets
