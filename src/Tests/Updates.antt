-- ===== src/Tests/Updates.antt =====
-- The updater of qmdb/src/updater.rs, with services that are as small as can be.
use qmdb.Common.{
  ℕ, zero, suc, ◌+◌, ◌-◌, ◌≡◌, refl, List, [], ◌∷◌, ◌++◌, true, false, none, some, ◌>>=◌, length,
  take, replicate,
}
use qmdb.Extern.Byteorder.{plain_order}
use qmdb.Utils.Hasher.{Hash32}
use qmdb.Entryfile.Entry.{
  Entry, get_serialized_len, key_hash, next_key_hash, next_key_hash_start, get_kv_len, value, key,
  serial_number,
}
use qmdb.Entryfile.Entry.Fields.{bytes_of}
use qmdb.Entryfile.Entry.Sentry.{sentry, hash16}
use qmdb.Updater.Env.{Env}
use qmdb.Updater.Reading.{read_entry}
use qmdb.Updater.Reading.Laws.{read_entry_lem}
use qmdb.Updater.Kv.{
  Updater, Deleted, one_loop, both_loops, find_call, find_prev, renewed, insert_pair, insert_at,
  insert, find_key, overwrite,
}
use qmdb.Updater.Kv.Deleting.{State}
use qmdb.Updater.Tasks.{step_forward}
use qmdb.Updater.Tasks.Chain.{Links, run_all, step_forward_lem}
use qmdb.Tests.Data.{zero_sha}

step_forward_lem_example :
    (ids : List ℕ) × (out : List (ℕ × ℕ)) × (end : ℕ) × Links ((2, 5) ∷ (1, 2) ∷ []) 1 ids out end
    × ((u : List ℕ)
        → step_forward (λ id log. some (id ∷ log)) 3 ((2, 5) ∷ (1, 2) ∷ []) 1 u
          ≡ (run_all (λ id log. some (id ∷ log)) ids u >>= λ u1. some (u1, out, end)))
step_forward_lem_example = step_forward_lem (λ id log. some (id ∷ log)) ((2, 5) ∷ (1, 2) ∷ []) 1

-- Sentry 0 with the lowest hash as its next one.
abbrev closed : Entry
closed = record (sentry 0 0) { next_key_hash = replicate 32 0 }

-- The state counts the bytes appended; positions 0 and 2 are cached, 1 is on disk.
abbrev env : Env ℕ
env = record {
  lookup = λ s pos. elim pos [
    | zero ↦ some (bytes_of (sentry 0 0) [])
    | suc k ↦ elim k [ zero ↦ none | suc j ↦ some (bytes_of closed []) ]
  ];
  get_entry_bz_at = λ s pos. (true, none);
  read_file = λ s pos n. (replicate n 7, 304);
  append = λ s e dsns. some (s, s + 88);
  end_block = λ s a b c. s;
  for_each_value = λ s h kh. 0 ∷ [];
  for_each_adjacent_value = λ s h kh. ([], (replicate 10 0, 0) ∷ []);
  add_kv = λ s k pos sn. some s;
  change_kv = λ s k old new dsn sn. some s;
  erase_kv = λ s k pos sn. some s;
  key_exists = λ s kh pos sn. true;
  len = λ s. 1;
  consume = λ s. none;
  send_returned = λ s j. s;
  check_begin_end = λ s id. (s, false);
  get_change_sets = λ s id. [];
}

-- An entry of 304 bytes on disk comes back with its last four bytes zero.
read_entry_lem_example :
    read_entry env plain_order 0 1
    ≡ some (take 304 (replicate 300 7) ++ replicate (304 - length (replicate {A = ℕ} 300 7)) 0)
read_entry_lem_example =
    ((read_entry_lem env plain_order 0 1).1 refl).2 (replicate 300 7) 304 refl refl

abbrev updater : Updater ℕ
updater = record {
  services = 88;
  curr_version = 1;
  sn_start = 0;
  sn_end = 4096;
  compact_done_pos = 0;
  utilization_div = 10;
  utilization_ratio = 7;
  compact_thres = 100;
  next_task_id_map = [];
  next_task_id = 0;
}

abbrev new_hash : Hash32
new_hash = 0 ∷ 0 ∷ 5 ∷ replicate 29 0

abbrev updated : Updater ℕ
updated = record updater { services = 264; sn_end = 4098 }

inserts : insert env plain_order zero_sha new_hash (107 ∷ []) (118 ∷ []) updater ≡ some updated
unfolding insert insert_at insert_pair find_prev find_call both_loops one_loop renewed read_entry
    key_hash next_key_hash next_key_hash_start get_kv_len value key serial_number get_serialized_len
inserts = refl

-- The interval of the first contains the hash, that of the second does not.
abbrev first_at : List ℕ × ℕ
first_at = (replicate 10 0, 0)

abbrev second_at : List ℕ × ℕ
second_at = (replicate 10 0, 2)

abbrev first_bytes : List ℕ
first_bytes = bytes_of (sentry 0 0) []

abbrev second_bytes : List ℕ
second_bytes = bytes_of closed []

abbrev first_key : List ℕ
first_key = replicate 32 0

-- The entry to delete, the one in front of it, and what a search for them finds.
abbrev deleted : Deleted
deleted = record { pos = 0; sn = 0; next = hash16 1 }

abbrev found_both : State
found_both =
    (some deleted, some (record { k80 = second_at.0; pos = second_at.1; bz = second_bytes }))

abbrev overwritten : Updater ℕ
overwritten = record updater { services = 176; sn_end = 4097 }

overwrites :
    overwrite env plain_order zero_sha new_hash first_key (118 ∷ []) updater ≡ some overwritten
unfolding overwrite find_key read_entry key_hash next_key_hash next_key_hash_start get_kv_len value
    key serial_number get_serialized_len
overwrites = refl
