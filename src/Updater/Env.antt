-- ===== src/Updater/Env.antt =====
-- What `Updater` of qmdb/src/updater.rs is given: the task hub, the entry buffer and cache, the
-- entry file, the indexer and the channel of compaction jobs, all in one state. File positions are
-- numbers; `none` is a panic of the service.
use qmdb.Common.{ℕ, List, Bool, Option}
use qmdb.Utils.Hasher.{Hash32}
use qmdb.Entryfile.Entry.{Entry}

-- `CompactJob` of qmdb/src/compactor.rs.
pub record CompactJob : Type 0 where
  pub old_pos : ℕ
  pub entry_bz : List ℕ

-- One operation of a change set.
pub data Op : Type 0 where
  write : Hash32 → List ℕ → List ℕ → Op
  create : Hash32 → List ℕ → List ℕ → Op
  delete : Hash32 → List ℕ → Op
  read : Op
  other : Op

pub record Env (S : Type 0) : Type 0 where
  -- The cache: the bytes at a position, on a hit.
  pub lookup : S → ℕ → Option (List ℕ)
  -- The buffer: whether a position is on disk only, and the bytes when they were accessed.
  pub get_entry_bz_at : S → ℕ → Bool × Option (List ℕ)
  -- The entry file: a buffer of the given length after a read, and the size of the entry.
  pub read_file : S → ℕ → ℕ → List ℕ × ℕ
  pub append : S → Entry → List ℕ → Option (ℕ × S)
  pub end_block : S → ℕ → ℕ → ℕ → S
  -- The indexer: the positions, in the order that the callback sees them. Those of
  -- `for_each_adjacent_value` are of the key itself and of the key before it, in two loops: when the
  -- callback asks to stop, one loop ends, as in qmdb/src/indexer/inmem.rs.
  pub for_each_value : S → ℕ → Hash32 → List ℕ
  pub for_each_adjacent_value : S → ℕ → Hash32 → List (List ℕ × ℕ) × List (List ℕ × ℕ)
  pub add_kv : S → List ℕ → ℕ → ℕ → Option S
  pub change_kv : S → List ℕ → ℕ → ℕ → ℕ → ℕ → Option S
  pub erase_kv : S → List ℕ → ℕ → ℕ → Option S
  pub key_exists : S → Hash32 → ℕ → ℕ → Bool
  pub len : S → ℕ
  -- The channel of compaction jobs; `none` is a channel that never gives one.
  pub consume : S → Option (CompactJob × S)
  pub send_returned : S → CompactJob → S
  -- The task hub: whether the task starts and ends a block, with the cache taken on a start.
  pub check_begin_end : S → ℕ → S × Bool
  pub get_change_sets : S → ℕ → List (List Op)
