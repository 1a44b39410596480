-- ===== src/Indexer/Inmem/Leaf.antt =====
-- `RoLeaf` and `Leaf` of qmdb/src/indexer/inmem.rs: a count of two bytes, and pairs of a six-byte
-- key and a six-byte value. A leaf is the list of its bytes; an `i64` value is the number below 2^64
-- with the same bits; `none` is a panic.
pub mod Shows
pub mod Writes
pub mod Laws
pub mod Sorted
pub mod Search
pub mod Fresh
pub mod Cut
pub mod Edits
use qmdb.Common.{
  ℕ, zero, suc, ◌+◌, ◌-◌, ◌*◌, ◌/◌, ◌%◌, ◌^◌, List, Bool, true, false, ◌&&◌, Option, none, some,
  length, take, ltb, leb, ◌==◌, ◌>>=◌,
}
use qmdb.Common.Bytes.{slice, put, to_le_bytes}
use qmdb.Extern.Byteorder.{ByteOrder}

abbrev pub k_size : ℕ
k_size = 6

abbrev pub v_size : ℕ
v_size = 6

abbrev pub kv_size : ℕ
kv_size = k_size + v_size

-- `copy_within(start..end, dest)`.
abbrev pub copy_within : List ℕ → ℕ → ℕ → ℕ → Option (List ℕ)
copy_within bytes start end dest = do moved ← slice bytes start end; put bytes dest moved

module _ (bo : ByteOrder) where
  unfoldable pub leaf_len : List ℕ → Option ℕ
  leaf_len bytes = do count ← slice bytes 0 2; some (bo.read_le count)

  unfoldable pub is_full : List ℕ → Option Bool
  unfolding leaf_len
  is_full bytes = do n ← leaf_len bytes; some (2 + n * kv_size == length bytes)

  unfoldable pub get : List ℕ → ℕ → Option (ℕ × ℕ)
  get bytes idx = do
    let start = 2 + idx * kv_size
    low ← slice bytes start (start + 8)
    high ← slice bytes (start + kv_size - 8) (start + kv_size)
    some (bo.read_le low * 2 ^ 16 % 2 ^ 64 / 2 ^ 16, bo.read_le high / 2 ^ 16)

  -- The loop of `seek`: the rounds left, and the index.
  pub seek_from : ℕ → ℕ → List ℕ → ℕ → Option (Option ℕ)
  unfolding get
  seek_from zero i bytes k = some none
  seek_from (suc rounds) i bytes k = do
    got ← get bytes i
    elim (leb k (got.0)) [ true ↦ some (some i) | false ↦ seek_from rounds (i + 1) bytes k ]

  unfoldable pub seek : List ℕ → ℕ → Option (Option ℕ)
  unfolding leaf_len seek_from
  seek bytes k = do n ← leaf_len bytes; seek_from n 0 bytes k

  -- The loop of `find_kv`.
  pub find_from : ℕ → ℕ → List ℕ → ℕ → ℕ → Option (Option ℕ)
  unfolding get
  find_from zero i bytes k v = some none
  find_from (suc rounds) i bytes k v = do
    got ← get bytes i
    elim (k == got.0 && v == got.1) [
      | true ↦ some (some i)
      | false ↦ elim (ltb k (got.0)) [
        | true ↦ some none
        | false ↦ find_from rounds (i + 1) bytes k v
      ]
    ]

  unfoldable pub find_kv : List ℕ → ℕ → ℕ → Option (Option ℕ)
  unfolding leaf_len find_from
  find_kv bytes k v = do n ← leaf_len bytes; find_from n 0 bytes k v

  unfoldable pub change_value : List ℕ → ℕ → ℕ → Option (List ℕ)
  change_value bytes idx v =
      let start = 2 + idx * kv_size in put bytes (start + k_size) (take 6 (to_le_bytes 8 v))

  unfoldable pub insert : List ℕ → ℕ → ℕ → ℕ → Option (List ℕ)
  unfolding leaf_len
  insert bytes idx k v = do
    n ← leaf_len bytes
    let start = 2 + idx * kv_size
    let end = 2 + n * kv_size
    bytes1 ← elim (ltb start end) [
      | true ↦ copy_within bytes start end (start + kv_size)
      | false ↦ some bytes
    ]
    bytes2 ← put bytes1 start (bo.write_le 8 k)
    bytes3 ← put bytes2 (start + k_size) (take 6 (to_le_bytes 8 v))
    put bytes3 0 (bo.write_le 2 ((n + 1) % 2 ^ 16))

  unfoldable pub append : List ℕ → ℕ → ℕ → Option (List ℕ)
  unfolding leaf_len insert
  append bytes k v = do n ← leaf_len bytes; insert bytes n k v

  unfoldable pub remove : List ℕ → ℕ → Option (List ℕ)
  unfolding leaf_len
  remove bytes idx = do
    n ← leaf_len bytes
    let start = 2 + idx * kv_size
    let end = 2 + n * kv_size
    bytes1 ← copy_within bytes (start + kv_size) end start
    put bytes1 0 (bo.write_le 2 ((n + 2 ^ 16 - 1) % 2 ^ 16))

  unfoldable pub erase : List ℕ → ℕ → ℕ → Option (List ℕ)
  unfolding find_kv remove
  erase bytes k v = do found ← find_kv bytes k v; idx ← found; remove bytes idx

  unfoldable pub change : List ℕ → ℕ → ℕ → ℕ → Option (List ℕ)
  unfolding find_kv change_value
  change bytes k old_v new_v = do
    found ← find_kv bytes k old_v
    idx ← found
    change_value bytes idx new_v

  -- The split of a full leaf: the new pair, and the pairs that move, into the bytes of a new leaf.
  unfoldable pub split_bytes : List ℕ → ℕ → ℕ → ℕ → List ℕ → Option (List ℕ)
  split_bytes bz count k v tail = do
    bz1 ← put bz 0 (bo.write_le 2 ((1 + count) % 2 ^ 16))
    bz2 ← put bz1 2 (bo.write_le 8 k)
    bz3 ← put bz2 8 (take 6 (to_le_bytes 8 v))
    put bz3 14 tail
