-- ===== src/Updater/Kv.antt =====
-- `Updater` of qmdb/src/updater.rs: its state, and `write_kv`, `delete_kv`, `create_kv` and
-- `compact`. The checks against a record of the operation, which only the feature `check_rec`
-- enables, and the prints are left out. `none` is a panic. File positions are not negative, so the
-- `-1` that stands for "not found" is an `Option` here.
pub mod Laws
pub mod Deleting
use qmdb.Common.{
  ℕ, zero, suc, ◌+◌, ◌*◌, ◌/◌, ◌^◌, List, [], ◌∷◌, Bool, true, false, ◌&&◌, if◌then◌else◌, Option,
  none, some, length, ltb, ◌==◌, ◌>>=◌,
}
use qmdb.Common.Bytes.{bytes_eq}
use qmdb.Def.{is_compactible, in_block_idx_bits}
use qmdb.Extern.Byteorder.{ByteOrder}
use qmdb.Extern.Sha2.{Sha256}
use qmdb.Utils.Hasher.{Hash32}
use qmdb.Entryfile.Entry.{Entry}
use qmdb.Entryfile.Entry.{
  key as key_of, value as value_of, next_key_hash as next_of, version as version_of,
  serial_number as sn_of, key_hash as key_hash_of,
}
use qmdb.Updater.Env.{Env, CompactJob}
use qmdb.Updater.Reading.{read_entry}

pub record Updater (S : Type 0) : Type 0 where
  pub services : S
  pub curr_version : ℕ
  pub sn_start : ℕ
  pub sn_end : ℕ
  pub compact_done_pos : ℕ
  pub utilization_div : ℕ
  pub utilization_ratio : ℕ
  pub compact_thres : ℕ
  pub next_task_id_map : List (ℕ × ℕ)
  pub next_task_id : ℕ

-- `<` on byte strings.
abbrev pub bytes_lt : List ℕ → List ℕ → Bool
bytes_lt xs [] = false
bytes_lt [] (y ∷ ys) = true
bytes_lt (x ∷ xs) (y ∷ ys) =
    let rest = bytes_lt xs ys in elim (x == y) [ true ↦ rest | false ↦ ltb x y ]

-- The entry that a deletion removes.
pub record Deleted : Type 0 where
  pub pos : ℕ
  pub sn : ℕ
  pub next : List ℕ

-- The entry in front of it.
pub record Previous : Type 0 where
  pub k80 : List ℕ
  pub pos : ℕ
  pub bz : List ℕ

-- What the callback of `create_kv` keeps: the key and the position that it noted, and the bytes of
-- the entry that it read last, which are empty at first.
pub record Search : Type 0 where
  pub found : Option (List ℕ × ℕ)
  pub buf : List ℕ

-- A loop that ends when the callback asks to stop.
unfoldable pub one_loop : {A P : Type 0} → (P → A → Option A) → (A → Bool) → List P → A → Option A
one_loop call stop [] a = some a
one_loop call stop (p ∷ ps) a = do
  a' ← call p a
  elim (stop a') [ true ↦ some a' | false ↦ one_loop call stop ps a' ]

-- The second loop follows, also after a stop in the first.
unfoldable pub both_loops :
    {A P : Type 0} → (P → A → Option A) → (A → Bool) → List P × List P → A → Option A
unfolding one_loop
both_loops call stop loops a = do
  a' ← one_loop call stop (loops.0) a
  one_loop call stop (loops.1) a'

abbrev pub is_some : {A : Type 0} → Option A → Bool
is_some none = false
is_some (some a) = true

module _ {S : Type 0} (env : Env S) (bo : ByteOrder) (sha : Sha256) where
  abbrev pub height_of : Updater S → ℕ
  height_of u = u.curr_version / 2 ^ in_block_idx_bits

  -- The first of the positions whose entry has the key, with its bytes.
  unfoldable pub find_key : S → List ℕ → List ℕ → Option (Option (ℕ × List ℕ))
  find_key s key [] = some none
  find_key s key (file_pos ∷ rest) = do
    bz ← read_entry env bo s file_pos
    k ← key_of bo bz
    elim (bytes_eq k key) [ true ↦ some (some (file_pos, bz)) | false ↦ find_key s key rest ]

  -- The callback of `create_kv`: it notes a position whose entry's interval contains the hash.
  unfoldable pub find_call : S → Hash32 → List ℕ × ℕ → Search → Option Search
  find_call s key_hash at st = do
    bz ← read_entry env bo s (at.1)
    kh ← key_hash_of bo sha bz
    elim (bytes_lt kh key_hash) [
      | true ↦ do
        next ← next_of bo bz
        some (record { found = if bytes_lt key_hash next then some at else st.found; buf = bz })
      | false ↦ some (record { found = st.found; buf = bz })
    ]

  unfoldable pub find_prev : S → Hash32 → List (List ℕ × ℕ) × List (List ℕ × ℕ) → Option Search
  unfolding find_call
  find_prev s key_hash loops =
      both_loops (find_call s key_hash) (λ st. is_some st.found) loops
        (record { found = none; buf = [] })

  -- The second half of a round of the callback of `delete_kv`.
  pub delete_prev :
      Hash32
      → List ℕ
      → ℕ
      → List ℕ
      → Option Deleted
      → Option Previous
      → Option (Option Deleted × Option Previous)
  delete_prev key_hash k80 file_pos bz deleted (some p) = some (deleted, some p)
  delete_prev key_hash k80 file_pos bz deleted none = do
    next ← next_of bo bz
    elim (bytes_eq next key_hash) [
      | true ↦ some (deleted, some (record { k80 = k80; pos = file_pos; bz = bz }))
      | false ↦ some (deleted, none)
    ]

  pub delete_round :
      Hash32
      → List ℕ
      → List ℕ
      → ℕ
      → List ℕ
      → Option Deleted
      → Option Previous
      → Option (Option Deleted × Option Previous)
  unfolding delete_prev
  delete_round key_hash key k80 file_pos bz (some d) prev =
      delete_prev key_hash k80 file_pos bz (some d) prev
  delete_round key_hash key k80 file_pos bz none prev = do
    k ← key_of bo bz
    elim (bytes_eq k key) [
      | true ↦ do
        sn ← sn_of bo bz
        next ← next_of bo bz
        some (some (record { pos = file_pos; sn = sn; next = next }), prev)
      | false ↦ delete_prev key_hash k80 file_pos bz none prev
    ]

  pub delete_call :
      S
      → Hash32
      → List ℕ
      → List ℕ × ℕ
      → Option Deleted × Option Previous
      → Option (Option Deleted × Option Previous)
  unfolding delete_round
  delete_call s key_hash key at r = do
    bz ← read_entry env bo s (at.1)
    delete_round key_hash key (at.0) (at.1) bz (r.0) (r.1)

  pub delete_search :
      S
      → Hash32
      → List ℕ
      → List (List ℕ × ℕ) × List (List ℕ × ℕ)
      → Option (Option Deleted × Option Previous)
  unfolding delete_call
  delete_search s key_hash key loops =
      both_loops (delete_call s key_hash key) (λ r. is_some (r.0) && is_some (r.1)) loops
        (none, none)

  -- A changed copy of an entry: its bytes with another next key hash and a new number.
  unfoldable pub renewed : List ℕ → Option (List ℕ) → ℕ → ℕ → Option Entry
  renewed bz next version serial_number = do
    k ← key_of bo bz
    v ← value_of bo bz
    n ← next
    some (record {
      key = k;
      value = v;
      next_key_hash = n;
      version = version;
      serial_number = serial_number;
    })

  -- The loop of `compact`, until a job's entry is still in the indexer.
  pub next_job : ℕ → S → Option (CompactJob × Hash32 × S)
  next_job zero s = none
  next_job (suc fuel) s = do
    j ← env.consume s
    kh ← key_hash_of bo sha (j.0.entry_bz)
    sn ← sn_of bo (j.0.entry_bz)
    elim (env.key_exists (j.1) kh (j.0.old_pos) sn) [
      | true ↦ some (j.0, kh, j.1)
      | false ↦ next_job fuel (env.send_returned (j.1) (j.0))
    ]

  pub compact : ℕ → Updater S → Option (Updater S)
  unfolding next_job renewed
  compact fuel u = do
    r ← next_job fuel u.services
    let job = r.0
    version ← version_of bo job.entry_bz
    new_entry ← renewed job.entry_bz (next_of bo job.entry_bz) version u.sn_end
    sn ← sn_of bo job.entry_bz
    a ← env.append (r.2) new_entry (sn ∷ [])
    s ← env.change_kv (a.1) (r.1) job.old_pos (a.0) sn u.sn_end
    some (record u {
      services = env.send_returned s job;
      sn_start = sn + 1;
      sn_end = u.sn_end + 1;
      compact_done_pos = job.old_pos + length job.entry_bz;
    })

  abbrev pub compactible : Updater S → Bool
  compactible u =
      is_compactible u.utilization_div u.utilization_ratio u.compact_thres (env.len u.services)
        u.sn_start u.sn_end

  -- Up to the compaction.
  unfoldable pub overwrite : Hash32 → List ℕ → List ℕ → Updater S → Option (Updater S)
  unfolding find_key
  overwrite key_hash key value u = do
    r ← find_key u.services key (env.for_each_value u.services (height_of u) key_hash)
    old ← r
    next ← next_of bo (old.1)
    sn ← sn_of bo (old.1)
    let new_entry : Entry = record {
      key = key;
      value = value;
      next_key_hash = next;
      version = u.curr_version;
      serial_number = u.sn_end;
    }
    a ← env.append u.services new_entry (sn ∷ [])
    s ← env.change_kv (a.1) key_hash (old.0) (a.0) sn u.sn_end
    some (record u { services = s; sn_end = u.sn_end + 1 })

  unfoldable pub write_kv : ℕ → Hash32 → List ℕ → List ℕ → Updater S → Option (Updater S)
  unfolding overwrite compact
  write_kv fuel key_hash key value u = do
    u1 ← overwrite key_hash key value u
    elim (compactible u1) [ true ↦ compact fuel u1 | false ↦ some u1 ]

  unfoldable pub delete_kv : Hash32 → List ℕ → Updater S → Option (Updater S)
  unfolding delete_search renewed
  delete_kv key_hash key u = do
    r ←
        delete_search u.services key_hash key
          (env.for_each_adjacent_value u.services (height_of u) key_hash)
    deleted ← r.0
    prev ← r.1
    prev_changed ← renewed prev.bz (some deleted.next) u.curr_version u.sn_end
    prev_sn ← sn_of bo prev.bz
    a ← env.append u.services prev_changed (deleted.sn ∷ prev_sn ∷ [])
    s1 ← env.erase_kv (a.1) key_hash deleted.pos deleted.sn
    s2 ← env.change_kv s1 prev.k80 prev.pos (a.0) prev_sn u.sn_end
    some (record u { services = s2; sn_end = u.sn_end + 1 })

  -- The two appends and the two changes of the index, and the new numbers.
  unfoldable pub insert_pair :
      Updater S → Hash32 → Previous → Entry → Entry → ℕ → Option (Updater S)
  insert_pair u key_hash prev new_entry prev_changed prev_sn = do
    c ← env.append u.services new_entry []
    a ← env.append (c.1) prev_changed (prev_sn ∷ [])
    s1 ← env.add_kv (a.1) key_hash (c.0) u.sn_end
    s2 ← env.change_kv s1 prev.k80 prev.pos (a.0) prev_sn (u.sn_end + 1)
    some (record u { services = s2; sn_end = u.sn_end + 2 })

  unfoldable pub insert_at : Hash32 → List ℕ → List ℕ → Previous → Updater S → Option (Updater S)
  unfolding renewed insert_pair
  insert_at key_hash key value prev u = do
    next ← next_of bo prev.bz
    let new_entry : Entry = record {
      key = key;
      value = value;
      next_key_hash = next;
      version = u.curr_version;
      serial_number = u.sn_end;
    }
    prev_changed ← renewed prev.bz (some key_hash) u.curr_version (u.sn_end + 1)
    sn ← sn_of bo prev.bz
    insert_pair u key_hash prev new_entry prev_changed sn

  -- Up to the compactions.
  unfoldable pub insert : Hash32 → List ℕ → List ℕ → Updater S → Option (Updater S)
  unfolding find_prev insert_at
  insert key_hash key value u = do
    st ←
        find_prev u.services key_hash
          (env.for_each_adjacent_value u.services (height_of u) key_hash)
    at ← st.found
    insert_at key_hash key value (record { k80 = at.0; pos = at.1; bz = st.buf }) u

  unfoldable pub create_kv : ℕ → Hash32 → List ℕ → List ℕ → Updater S → Option (Updater S)
  unfolding insert compact
  create_kv fuel key_hash key value u = do
    u1 ← insert key_hash key value u
    elim (compactible u1) [ true ↦ do u2 ← compact fuel u1; compact fuel u2 | false ↦ some u1 ]
