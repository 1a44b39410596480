-- ===== src/Entryfile/Entry.antt =====
-- `Entry` and `EntryBz` of qmdb/src/entryfile/entry.rs. Bytes are numbers below 256; an `i64` is the
-- number below 2^64 with the same bits; `none` is a panic, of a slice out of range or an explicit one.
pub mod Dump
pub mod Fields
pub mod Sentry
use qmdb.Common.{
  ℕ, zero, suc, ◌+◌, ◌-◌, ◌*◌, ◌/◌, ◌%◌, ◌^◌, List, [], ◌∷◌, ◌++◌, Bool, true, false, not, ◌||◌,
  Option, none, some, length, take, get_elem?, replicate, ltb, leb, ◌==◌, if◌then◌else◌, ◌>>=◌,
  ◌>>◌, assert, bit_and, bit_or,
}
use qmdb.Common.Bytes.{slice, put, bytes_eq}
use qmdb.Def.{entry_fixed_length, entry_base_length, shard_count}
use qmdb.Extern.Sha2.{Sha256}
use qmdb.Extern.Byteorder.{ByteOrder}
use qmdb.Utils.Hasher.{Hash32, zero_hash32, hash}

pub record Entry : Type 0 where
  pub key : List ℕ
  pub value : List ℕ
  pub next_key_hash : List ℕ
  pub version : ℕ
  pub serial_number : ℕ

abbrev pub null_entry_version : ℕ
null_entry_version = 2 ^ 64 - 2

abbrev pub u64_max : ℕ
u64_max = 2 ^ 64 - 1

unfoldable pub get_serialized_len : Entry → ℕ → ℕ
get_serialized_len e deactived_sn_count =
    let size = entry_base_length + length e.key + length e.value in
    (size + 7) / 8 * 8 + deactived_sn_count * 8

module _ (bo : ByteOrder) where
  -- The loop over the deactivated serial numbers.
  pub dump_dsns : List ℕ → ℕ → List ℕ → Option (List ℕ × ℕ)
  dump_dsns b i [] = some (b, i)
  dump_dsns b i (sn ∷ rest) = do b1 ← put b i (bo.write_le 8 sn); dump_dsns b1 (i + 8) rest

  -- The loop that pads, which runs at most seven rounds.
  pub dump_padding : ℕ → List ℕ → ℕ → Option (List ℕ × ℕ)
  dump_padding zero b i = none
  dump_padding (suc fuel) b i = elim (i % 8 == 0) [
    | true ↦ some (b, i)
    | false ↦ do b1 ← put b i (0 ∷ []); dump_padding fuel b1 (i + 1)
  ]

  -- The buffer afterwards, and the length written.
  pub dump : Entry → List ℕ → List ℕ → Option (List ℕ × ℕ)
  unfolding get_serialized_len dump_dsns dump_padding
  dump e b deactived_sn_list =
      if ltb (length b) (get_serialized_len e (length deactived_sn_list)) then none else (do
        let first32 = (length e.value * 256 + length e.key) % 2 ^ 32
        b0 ← put b 4 (length deactived_sn_list % 2 ^ 8 ∷ [])
        b1 ← put b0 0 (bo.write_le 4 first32)
        b2 ← put b1 5 e.key
        let i2 = 5 + length e.key
        b3 ← put b2 i2 e.value
        let i3 = i2 + length e.value
        assert (length e.next_key_hash == 32)
        b4 ← put b3 i3 e.next_key_hash
        let i4 = i3 + 32
        b5 ← put b4 i4 (bo.write_le 8 e.version)
        let i5 = i4 + 8
        b6 ← put b5 i5 (bo.write_le 8 e.serial_number)
        let i6 = i5 + 8
        r ← dump_dsns b6 i6 deactived_sn_list
        dump_padding 8 (r.0) (r.1))

  -- The entry in the buffer's prefix.
  pub dumped : Entry → List ℕ → Option (List ℕ)
  unfolding dump
  dumped e bz = do r ← dump e bz []; slice (r.0) 0 (r.1)

  -- The entry of the two bytes `first16`.
  abbrev pub sentry_of : ℕ → ℕ → Entry
  sentry_of first16 sn = record {
    key = bo.write_be 2 first16 ++ replicate 30 0;
    value = [];
    next_key_hash =
        if first16 == 65535
        then replicate 32 255
        else bo.write_be 2 (first16 + 1) ++ replicate 30 0;
    version = 0;
    serial_number = sn;
  }

  pub sentry_entry : ℕ → ℕ → List ℕ → Option (List ℕ)
  unfolding dumped
  sentry_entry shard_id sn bz =
      if leb shard_count shard_id || leb (2 ^ 16 / shard_count) sn
      then none
      else let first16 = bit_or (shard_id * 2 ^ 16 / shard_count) sn % 2 ^ 16 in
        dumped (sentry_of first16 sn) bz

  unfoldable pub null_entry : List ℕ → Option (List ℕ)
  unfolding dumped
  null_entry bz =
      dumped
        (record {
          key = [];
          value = [];
          next_key_hash = replicate 32 0;
          version = null_entry_version;
          serial_number = u64_max;
        })
        bz

  pub entry_to_bytes : Entry → List ℕ → List ℕ → Option (List ℕ)
  unfolding get_serialized_len dump
  entry_to_bytes e deactived_sn_list bz = do
    let total_len = get_serialized_len e (length deactived_sn_list)
    r ← dump e bz deactived_sn_list
    slice (r.0) 0 total_len

  unfoldable pub get_kv_len : List ℕ → Option (ℕ × ℕ)
  get_kv_len len_bytes = do
    head ← slice len_bytes 0 4
    let first32 = bo.read_le head
    some (bit_and first32 255, first32 / 2 ^ 8)

  pub get_entry_len : List ℕ → Option ℕ
  unfolding get_kv_len
  get_entry_len len_bytes = do
    kv ← get_kv_len len_bytes
    dsn_count ← get_elem? len_bytes 4
    some ((entry_base_length + kv.0 + kv.1 + 7) / 8 * 8 + dsn_count * 8)

  pub payload_len : List ℕ → Option ℕ
  unfolding get_kv_len
  payload_len bz = do
    kv ← get_kv_len bz
    dsn_count ← get_elem? bz 4
    some (entry_fixed_length + kv.0 + kv.1 + dsn_count * 8)

  unfoldable pub entry_hash : Sha256 → List ℕ → Option Hash32
  unfolding payload_len
  entry_hash sha bz = do n ← payload_len bz; payload ← slice bz 0 n; some (hash sha payload)

  unfoldable pub value : List ℕ → Option (List ℕ)
  unfolding get_kv_len
  value bz = do kv ← get_kv_len bz; slice bz (5 + kv.0) (5 + kv.0 + kv.1)

  unfoldable pub key : List ℕ → Option (List ℕ)
  key bz = do key_len ← get_elem? bz 0; slice bz 5 (5 + key_len)

  unfoldable pub key_hash : Sha256 → List ℕ → Option Hash32
  unfolding value key
  key_hash sha bz = do
    v ← value bz
    elim (length v == 0) [
      | true ↦ do
        first ← get_elem? bz 5
        second ← get_elem? bz 6
        some (first ∷ second ∷ replicate 30 0)
      | false ↦ do k ← key bz; some (hash sha k)
    ]

  unfoldable pub next_key_hash_start : List ℕ → Option ℕ
  unfolding get_kv_len
  next_key_hash_start bz = do head ← slice bz 0 4; kv ← get_kv_len head; some (5 + kv.0 + kv.1)

  unfoldable pub next_key_hash : List ℕ → Option (List ℕ)
  unfolding next_key_hash_start
  next_key_hash bz = do start ← next_key_hash_start bz; slice bz start (start + 32)

  pub version : List ℕ → Option ℕ
  unfolding next_key_hash_start
  version bz = do
    s ← next_key_hash_start bz
    let start = s + 32
    field ← slice bz start (start + 8)
    some (bo.read_le field)

  unfoldable pub serial_number : List ℕ → Option ℕ
  unfolding next_key_hash_start
  serial_number bz = do
    s ← next_key_hash_start bz
    let start = s + 40
    field ← slice bz start (start + 8)
    some (bo.read_le field)

  pub get_deactived_sn : List ℕ → ℕ → Option ℕ
  unfolding get_kv_len
  get_deactived_sn bz n = do
    kv ← get_kv_len bz
    let start = entry_fixed_length + kv.0 + kv.1 + n * 8
    field ← slice bz start (start + 8)
    some (bo.read_le field)

  pub dsn_count : List ℕ → Option ℕ
  dsn_count bz = get_elem? bz 4

  -- `DSNIter::next` at an index: the end, or the index, the number there and the index after it.
  unfoldable dsn_next : List ℕ → ℕ → ℕ → Option (Option (ℕ × ℕ × ℕ))
  unfolding get_deactived_sn
  dsn_next bz count idx = elim (leb count idx) [
    | true ↦ some none
    | false ↦ do sn ← get_deactived_sn bz idx; some (some (idx, sn, idx + 1))
  ]

  -- The iterator from the start.
  unfoldable dsn_iter : List ℕ → Option (Option (ℕ × ℕ × ℕ))
  unfolding dsn_count dsn_next
  dsn_iter bz = do count ← dsn_count bz; dsn_next bz count 0

  pub from_bz : List ℕ → Option Entry
  unfolding key value next_key_hash version serial_number
  from_bz e = do
    k ← key e
    v ← value e
    n ← next_key_hash e
    ver ← version e
    sn ← serial_number e
    some (record { key = k; value = v; next_key_hash = n; version = ver; serial_number = sn })

  pub entry_to_vec : Entry → List ℕ → Option (List ℕ)
  unfolding dump
  entry_to_vec e deactived_sn_list = do
    let total_len =
        (entry_base_length + length e.key + length e.value + 7) / 8 * 8
        + length deactived_sn_list * 8
    r ← dump e (replicate total_len 0) deactived_sn_list
    some (r.0)

  unfoldable entry_equal : List ℕ → Entry → List ℕ → Option Bool
  unfolding entry_to_vec
  entry_equal bz e deactived_sn_list = do v ← entry_to_vec e deactived_sn_list; some (bytes_eq v bz)
