-- ===== src/Lib.antt =====
-- Verification of QMDB, a key-value store with a Merkle tree over its entries.
--
-- The program. A shard keeps its entries in an append-only file (hpfile); an entry holds a key, its
-- value, the hash of the key that follows, a version, a serial number, and the serial numbers that
-- it retires. The updater reads an entry through cache, buffer and file, and turns writes,
-- creations and deletions into appended entries and changes of the indexer. The serial numbers fill
-- twigs of 2048 leaves: the left tree of a twig hashes the entries, its right tree the bits that
-- say which of them are active. A proof path leads from an entry and its bit to the root.
--
-- The files.
--   Common: helpers on lists, bits and bytes, and the library's names; no code is modelled there.
--   Extern: the crates dashmap, sha2 and byteorder, as interfaces with what the code relies on; a
--     plain function meets each of them.
--   Def: qmdb/src/def.rs. is_compactible, calc_max_level and the constants.
--   Utils/ActiveBits (with Segment, Segment/Word, Segment/Laws, Laws): qmdb/src/utils/activebits.rs.
--   Utils/Hasher: qmdb/src/utils/hasher.rs.
--   Utils/BytesCache (Laws): qmdb/src/utils/bytescache.rs. The names with `shard` and `pos` are those
--     of BytesCacheShard, the others those of BytesCache.
--   Utils/ShortList (Laws): qmdb/src/utils/shortlist.rs.
--   Merkletree/Twig (Sync, Rebuild): sync_mtree of qmdb/src/merkletree/twig.rs.
--   Merkletree/ActiveBits, Merkletree/RightTree, Merkletree/NullTree: ActiveBits, Twig and the null
--     tree of the same file.
--   Merkletree/Proof (Chain, Check, Binding, Codec, Codec/Roundtrip, Paths, Paths/Linked,
--     Paths/Complete): qmdb/src/merkletree/proof.rs. `chain` is one loop of ProofPath::check.
--   Entryfile/Entry (Dump, Fields, Sentry): Entry and EntryBz of qmdb/src/entryfile/entry.rs.
--   Entryfile/EntryVec (Places): EntryVec of the same file; `add_position` is _add_entry.
--   Updater/Env, Updater/Reading (Laws), Updater/Kv (Laws, Deleting), Updater/Tasks (Chain):
--     qmdb/src/updater.rs. `overwrite` and `insert` are write_kv and create_kv up to the
--     compaction. What the updater is given (indexer, entry buffer, cache, entry file, task hub,
--     channel of compaction jobs) is the record Env; a search of the indexer for adjacent
--     values runs its callback in the two loops of the in-memory indexer.
--   Indexer/Inmem: qmdb/src/indexer/inmem.rs. Leaf (Shows, Writes, Laws, Sorted, Search, Cut, Fresh,
--     Edits): Leaf and RoLeaf. BufList (Heap, Room, Alloc): BufList. Unit (Leaves, Standing, Lookup,
--     Pairs, Rewriting, Parts, Cut; Edits for erase_kv and change_kv; Fresh, Adding, Inserting,
--     Splitting, Alone, Halves, Additions for add_kv; Values for for_each_value) and Adjacent: Unit;
--     `add_leaf`, `move_pairs`, `split_leaf` and `add_at` are parts of add_kv. Builder: UnitBuilder and
--     Unit::compact. Generic (Laws): InMemIndexerGeneric over Unit. BTree: the standard library's
--     BTreeMap, as a sorted list.
--   Tasks (Manager, Hub, Hub/Blocks, Hub/Laws): qmdb/src/tasks/tasksmanager.rs and bptaskhub.rs.
--   Utils/ChangeSet (Visits, Order, Ordered, Returns, Shards, Sorted): qmdb/src/utils/changeset.rs.
--   Hpfile (PreReader, Reads, Tail, Append): hpfile/src/lib.rs.
--   Tests: concrete runs.
--
-- Conventions. Numbers are natural numbers; an i64 that the code only stores is the number below
-- 2^64 with the same bits; casts to narrower integers are written out. Sums and products that the
-- code computes on 64 bits are taken to fit, where no wrap-around is written out. A function that
-- can panic returns an Option, `none` being the panic; ProofPath::check returns a result with the
-- errors of the source. Arrays that the code mutates are passed in and returned. Atomics are read
-- and written one call at a time.
--
-- Fuel. The outer loop of sync_mtree runs 12 rounds at most for 2048 leaves, and is given 12;
-- the padding loop of dump runs at most 7 rounds and one test, and is given 8; the loop of
-- run_task_with_ooo_id takes an entry off its map in every round, and is given one round more than
-- the map has entries; the loop of compact runs until a job's entry is in the indexer, which the
-- channel alone decides, so its fuel is an argument; truncate drops one segment a round.
--
-- Not modelled: the upper tree and recovery, the hybrid indexer, the entry buffer and the flusher,
-- the threads of the in-memory indexer's compaction, the sequential and the stateless database, the
-- metadata, the benchmarks; in the updater the comparisons of the feature check_rec; in the file
-- its opening.
pub mod Common
pub mod Def
pub mod Extern
pub mod Utils
pub mod Indexer
pub mod Merkletree
pub mod Entryfile
pub mod Tasks
pub mod Updater
pub mod Hpfile
pub mod Tests
