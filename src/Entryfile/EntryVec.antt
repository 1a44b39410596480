-- ===== src/Entryfile/EntryVec.antt =====
-- `EntryVec` of qmdb/src/entryfile/entry.rs: the entries of a block, by shard, in buffers of 64 KB.
-- `none` is a panic.
pub mod Places
use qmdb.Common.{
  ℕ, zero, suc, ◌+◌, ◌-◌, ◌*◌, ◌/◌, ◌%◌, ◌^◌, List, [], ◌∷◌, ◌++◌, Bool, true, false, Option, none,
  some, length, take, drop, get_elem?, set, replicate, min, ltb, leb, ◌==◌, if◌then◌else◌, ◌>>=◌,
  ◌>>◌, assert,
}
use qmdb.Common.Bytes.{slice, put}
use qmdb.Def.{big_buf_size, shard_count, shard_div}
use qmdb.Extern.Byteorder.{ByteOrder}
use qmdb.Extern.Sha2.{Sha256}
use qmdb.Utils.Hasher.{Hash32}
use qmdb.Entryfile.Entry.{Entry, get_serialized_len, dump, get_entry_len, key_hash}

pub record EntryVec : Type 0 where
  pub buf_list : List (List ℕ)
  pub pos_list : List (List ℕ)
  pub next_pos : ℕ

unfoldable pub new_big_buf : List ℕ
new_big_buf = replicate big_buf_size 0

pub new : EntryVec
unfolding new_big_buf
new = record { buf_list = new_big_buf ∷ []; pos_list = replicate shard_count []; next_pos = 0 }

-- `_add_entry`: the offset in the last buffer, and the vector with the position.
unfoldable pub add_position : EntryVec → ℕ → ℕ → Option (ℕ × EntryVec)
add_position v shard_id size = do
  let offset = v.next_pos % big_buf_size
  let full = ltb big_buf_size (offset + size)
  let buf_list = if full then v.buf_list ++ (new_big_buf ∷ []) else v.buf_list
  let pos = if full then length v.buf_list * big_buf_size else v.next_pos
  list ← get_elem? v.pos_list shard_id
  some (
    if full then 0 else offset,
    record {
      buf_list = buf_list;
      pos_list = set v.pos_list shard_id (list ++ (pos ∷ []));
      next_pos = pos + size;
    },
  )

-- The last buffer, changed.
pub with_last : (List ℕ → Option (List ℕ)) → EntryVec → Option EntryVec
with_last change v = do
  let last = length v.buf_list - 1
  buf ← get_elem? v.buf_list last
  buf' ← change buf
  some (record v { buf_list = set v.buf_list last buf' })

abbrev pub index_of_last : EntryVec → ℕ → Option ℕ
index_of_last v shard_id = do list ← get_elem? v.pos_list shard_id; some (length list - 1)

abbrev pub shard_of : Hash32 → Option ℕ
shard_of kh = do first ← get_elem? kh 0; some (first * 256 / shard_div)

module _ (bo : ByteOrder) (sha : Sha256) where
  pub add_entry_bz : EntryVec → List ℕ → Option (ℕ × EntryVec)
  unfolding add_position with_last
  add_entry_bz v bz = do
    kh ← key_hash bo sha bz
    shard_id ← shard_of kh
    a ← add_position v shard_id (length bz)
    v' ← with_last (λ buf. put buf (a.0) bz) (a.1)
    i ← index_of_last v' shard_id
    some (i, v')

  unfoldable batch_add_entry_data : EntryVec → List (List ℕ) → Option EntryVec
  unfolding add_entry_bz
  batch_add_entry_data v [] = some v
  batch_add_entry_data v (item ∷ rest) = do r ← add_entry_bz v item; batch_add_entry_data (r.1) rest

  unfoldable add_entry : EntryVec → Hash32 → Entry → List ℕ → Option (ℕ × EntryVec)
  unfolding add_position with_last
  add_entry v kh e dsn_list = do
    shard_id ← shard_of kh
    a ← add_position v shard_id (get_serialized_len e (length dsn_list))
    v' ←
        with_last (λ buf. do r ← dump bo e (drop (a.0) buf) dsn_list; some (take (a.0) buf ++ r.0))
          (a.1)
    i ← index_of_last v' shard_id
    some (i, v')

  pub get_entry_by_pos : EntryVec → ℕ → Option (List ℕ)
  get_entry_by_pos v pos = do
    let offset = pos % big_buf_size
    buf ← get_elem? v.buf_list (pos / big_buf_size)
    head ← slice buf offset (offset + 5)
    size ← get_entry_len bo head
    slice buf offset (offset + size)

  pub get_entry : EntryVec → ℕ → ℕ → Option (List ℕ)
  unfolding get_entry_by_pos
  get_entry v shard_id i = do
    list ← get_elem? v.pos_list shard_id
    pos ← get_elem? list i
    get_entry_by_pos v pos

  -- `EntryBzIter::next` at an index: the end, or the entry and the index after it.
  unfoldable iter_next : EntryVec → ℕ → ℕ → Option (Option (ℕ × List ℕ × ℕ))
  unfolding get_entry
  iter_next v shard_id idx = do
    list ← get_elem? v.pos_list shard_id
    elim (leb (length list) idx) [
      | true ↦ some none
      | false ↦ do e ← get_entry v shard_id idx; some (some (idx, e, idx + 1))
    ]

  pub positions_to_bytes : List ℕ → List ℕ
  positions_to_bytes [] = []
  positions_to_bytes (pos ∷ rest) = bo.write_le 8 pos ++ positions_to_bytes rest

  pub shards_to_bytes : List (List ℕ) → List ℕ
  unfolding positions_to_bytes
  shards_to_bytes [] = []
  shards_to_bytes (list ∷ rest) =
      bo.write_le 8 (length list) ++ (positions_to_bytes list ++ shards_to_bytes rest)

  -- The used part of the buffers from number `i` on.
  pub bufs_to_bytes : ℕ → ℕ → List (List ℕ) → List ℕ
  bufs_to_bytes i next_pos [] = []
  bufs_to_bytes i next_pos (buf ∷ rest) =
      take (min (next_pos - i * big_buf_size) big_buf_size) buf
      ++ bufs_to_bytes (i + 1) next_pos rest

  pub to_bytes : EntryVec → Option (List ℕ)
  unfolding shards_to_bytes bufs_to_bytes
  to_bytes v = do
    let head = bo.write_le 8 v.next_pos ++ shards_to_bytes v.pos_list
    let bz = head ++ bufs_to_bytes 0 v.next_pos v.buf_list
    assert (length head + v.next_pos == length bz)
    some bz

  -- `n` words, and what follows them.
  pub read_positions : ℕ → List ℕ → Option (List ℕ × List ℕ)
  read_positions zero bz = some ([], bz)
  read_positions (suc n) bz = do
    word ← slice bz 0 8
    r ← read_positions n (drop 8 bz)
    some (bo.read_le word ∷ r.0, r.1)

  pub read_shards : ℕ → List ℕ → Option (List (List ℕ) × List ℕ)
  unfolding read_positions
  read_shards zero bz = some ([], bz)
  read_shards (suc count) bz = do
    word ← slice bz 0 8
    r ← read_positions (bo.read_le word) (drop 8 bz)
    q ← read_shards count (r.1)
    some (r.0 ∷ q.0, q.1)

  pub read_bufs : ℕ → List ℕ → List (List ℕ) × List ℕ
  read_bufs zero bz = ([], bz)
  read_bufs (suc count) bz =
      let size = min (length bz) big_buf_size in
      let (bufs, rest) = read_bufs count (drop size bz) in
      ((take size bz ++ drop size new_big_buf) ∷ bufs, rest)

  unfoldable from_bytes : List ℕ → Option EntryVec
  unfolding read_shards read_bufs
  from_bytes bz = do
    word ← slice bz 0 8
    let next_pos = bo.read_le word
    r ← read_shards shard_count (drop 8 bz)
    let bufs = read_bufs ((next_pos + big_buf_size - 1) / big_buf_size) (r.1)
    assert (length (bufs.1) == 0)
    some (record { buf_list = bufs.0; pos_list = r.0; next_pos = next_pos })
