-- ===== src/Entryfile/Entry/Fields.antt =====
-- qmdb/src/entryfile/entry.rs: the fields of `EntryBz`, read back from the bytes of an entry.
use mathlib.Core.List.{append_assoc}
use qmdb.Common.{
  ℕ, zero, suc, ◌+◌, ◌*◌, ◌/◌, ◌%◌, ◌^◌, ◌<◌, ◌≤◌, ◌≡◌, refl, ap, ◌∙◌, sym, List, [], ◌∷◌, ◌++◌,
  some, length, drop, replicate, arith, get_elem?, length-append, bit_and, length-replicate,
}
use qmdb.Common.Bits.{bit_and-low}
use qmdb.Common.Bytes.{slice, slice-append, to_le_bytes, from_le_bytes-to_le_bytes}
use qmdb.Extern.Byteorder.{ByteOrder}
use qmdb.Entryfile.Entry.{
  Entry, get_serialized_len, entry_to_bytes, get_kv_len, get_entry_len, key, value,
  next_key_hash_start, next_key_hash, version, serial_number, get_deactived_sn, from_bz,
}
use qmdb.Entryfile.Entry.Dump.{
  payload, length-payload, pad, first32, dsn_bytes, dump_lem, to_head, to_key, to_value, to_next,
  to_version, to_serial, all_fields,
}

-- Fields that fit their widths.
pub record IsEncodable (e : Entry) (dsns : List ℕ) : Type 0 where
  pub key_fits : length e.key < 2 ^ 8
  pub value_fits : length e.value < 2 ^ 24
  pub next_size : length e.next_key_hash ≡ 32
  pub version_fits : e.version < 256 ^ 8
  pub serial_fits : e.serial_number < 256 ^ 8
  pub dsns_fit : length dsns < 2 ^ 8
  pub each_fits : (i sn : ℕ) → get_elem? dsns i ≡ some sn → sn < 256 ^ 8

-- The bytes of an entry: its fields, and the padding.
abbrev pub bytes_of : Entry → List ℕ → List ℕ
bytes_of e dsns = payload e dsns ++ replicate (pad e dsns) 0

pub size :
    (e : Entry) (dsns : List ℕ)
    → length e.next_key_hash ≡ 32
    → length (bytes_of e dsns) ≡ get_serialized_len e (length dsns)
unfolding get_serialized_len
size e dsns h = omega (
  arith,
  length-append (payload e dsns) (replicate (pad e dsns) 0),
  length-replicate {A = ℕ} (pad e dsns) 0,
  length-payload e dsns h,
)

module _ (bo : ByteOrder) (e : Entry) (dsns : List ℕ) (w : IsEncodable e dsns) where
  abbrev z : List ℕ
  z = replicate (pad e dsns) 0

  abbrev after_serial : List ℕ
  after_serial = dsn_bytes dsns ++ z

  abbrev after_version : List ℕ
  after_version = to_le_bytes 8 e.serial_number ++ after_serial

  abbrev after_next : List ℕ
  after_next = to_le_bytes 8 e.version ++ after_version

  abbrev after_value : List ℕ
  after_value = e.next_key_hash ++ after_next

  abbrev after_key : List ℕ
  after_key = e.value ++ after_value

  abbrev bz : List ℕ
  bz = bytes_of e dsns

  -- The bytes, cut before each field.
  at_dsns : bz ≡ to_serial e dsns ++ after_serial
  at_dsns =
      ap (λ x. x ++ z) (sym (all_fields e dsns))
      ∙ append_assoc (to_serial e dsns) (dsn_bytes dsns) z

  at_serial : bz ≡ to_version e dsns ++ after_version
  at_serial =
      at_dsns ∙ append_assoc (to_version e dsns) (to_le_bytes 8 e.serial_number) after_serial

  at_version : bz ≡ to_next e dsns ++ after_next
  at_version = at_serial ∙ append_assoc (to_next e dsns) (to_le_bytes 8 e.version) after_version

  at_next : bz ≡ to_value e dsns ++ after_value
  at_next = at_version ∙ append_assoc (to_value e dsns) e.next_key_hash after_next

  at_value : bz ≡ to_key e dsns ++ after_key
  at_value = at_next ∙ append_assoc (to_key e dsns) e.value after_value

  at_key : bz ≡ to_head e dsns ++ (e.key ++ after_key)
  at_key = at_value ∙ append_assoc (to_head e dsns) e.key after_key

  l1 : length (to_key e dsns) ≡ 5 + length e.key
  l1 = omega (arith, length-append (to_head e dsns) e.key)

  l2 : length (to_value e dsns) ≡ 5 + length e.key + length e.value
  l2 = omega (arith, l1, length-append (to_key e dsns) e.value)

  l3 : length (to_next e dsns) ≡ 5 + length e.key + length e.value + 32
  l3 = omega (arith, l2, w.next_size, length-append (to_value e dsns) e.next_key_hash)

  l4 : length (to_version e dsns) ≡ 5 + length e.key + length e.value + 40
  l4 = omega (arith, l3, length-append (to_next e dsns) (to_le_bytes 8 e.version))

  l5 : length (to_serial e dsns) ≡ 5 + length e.key + length e.value + 48
  l5 = omega (arith, l4, length-append (to_version e dsns) (to_le_bytes 8 e.serial_number))

  -- A slice after known bytes.
  slice_at :
      (xs ys zs : List ℕ) (start end : ℕ)
      → bz ≡ xs ++ (ys ++ zs)
      → length xs ≡ start
      → start + length ys ≡ end
      → slice bz start end ≡ some ys
  slice_at xs ys zs start end h hs he =
      ap (λ b. slice b start end) h ∙ slice-append xs ys zs start end hs he

  read_word : (v : ℕ) → v < 256 ^ 8 → bo.read_le (to_le_bytes 8 v) ≡ v
  read_word v h = bo.read_le-bytes (to_le_bytes 8 v) ∙ from_le_bytes-to_le_bytes 8 v h

  head_value : bo.read_le (to_le_bytes 4 (first32 e)) ≡ length e.value * 256 + length e.key
  head_value =
      bo.read_le-bytes (to_le_bytes 4 (first32 e))
      ∙ from_le_bytes-to_le_bytes 4 (first32 e) (omega arith)
      ∙ omega (arith, w.key_fits, w.value_fits)

  head_slice : slice bz 0 4 ≡ some (to_le_bytes 4 (first32 e))
  head_slice =
      slice_at [] (to_le_bytes 4 (first32 e)) (length dsns % 2 ^ 8 ∷ (e.key ++ after_key)) 0 4
        at_key refl refl

  kv : length e.key ≡ bit_and (length e.value * 256 + length e.key) 255
  kv = omega (arith, bit_and-low 8 (length e.value * 256 + length e.key), w.key_fits)

  vv : (length e.value * 256 + length e.key) / 256 ≡ length e.value
  vv = omega (arith, w.key_fits)

  get_kv_len-bytes : get_kv_len bo bz ≡ some (length e.key, length e.value)
  unfolding get_kv_len
  get_kv_len-bytes = rw (head_slice, head_value, vv, ← kv) refl

  next_key_hash_start-bytes : next_key_hash_start bo bz ≡ some (5 + length e.key + length e.value)
  unfolding next_key_hash_start get_kv_len
  next_key_hash_start-bytes = rw (head_slice, head_value, vv, ← kv) refl

  pub value-bytes : value bo bz ≡ some e.value
  unfolding value
  value-bytes =
      rw
        (
          get_kv_len-bytes,
          slice_at (to_key e dsns) e.value after_value (5 + length e.key)
              (5 + length e.key + length e.value) at_value l1 refl,
        )
        refl

  next_key_hash-bytes : next_key_hash bo bz ≡ some e.next_key_hash
  unfolding next_key_hash
  next_key_hash-bytes =
      rw
        (
          next_key_hash_start-bytes,
          slice_at (to_value e dsns) e.next_key_hash after_next (5 + length e.key + length e.value)
              (5 + length e.key + length e.value + 32) at_next l2 (omega (arith, w.next_size)),
        )
        refl

  version-bytes : version bo bz ≡ some e.version
  unfolding version
  version-bytes =
      rw
        (
          next_key_hash_start-bytes,
          slice_at (to_next e dsns) (to_le_bytes 8 e.version) after_version
              (5 + length e.key + length e.value + 32) (5 + length e.key + length e.value + 32 + 8)
              at_version l3 refl,
          read_word e.version w.version_fits,
        )
        refl

  serial_number-bytes : serial_number bo bz ≡ some e.serial_number
  unfolding serial_number
  serial_number-bytes =
      rw
        (
          next_key_hash_start-bytes,
          slice_at (to_version e dsns) (to_le_bytes 8 e.serial_number) after_serial
              (5 + length e.key + length e.value + 40) (5 + length e.key + length e.value + 40 + 8)
              at_serial l4 refl,
          read_word e.serial_number w.serial_fits,
        )
        refl

  first_byte : first32 e % 256 ≡ length e.key
  first_byte = omega (arith, w.key_fits, w.value_fits)

  key-at : key bo bz ≡ slice bz 5 (5 + first32 e % 256)
  unfolding key
  key-at = refl

  key-bytes : key bo bz ≡ some e.key
  key-bytes =
      key-at
      ∙ ap (λ (n : ℕ). slice bz 5 (5 + n)) first_byte
      ∙ slice_at (to_head e dsns) e.key after_key 5 (5 + length e.key) at_key refl refl

  dsn_slice :
      (i sn : ℕ) (xs dsns' : List ℕ) (start : ℕ)
      → length xs + i * 8 ≡ start
      → get_elem? dsns' i ≡ some sn
      → bz ≡ xs ++ (dsn_bytes dsns' ++ z)
      → slice bz start (start + 8) ≡ some (to_le_bytes 8 sn)
  dsn_slice i sn xs [] start h g eq = absurd (cc)
  dsn_slice zero sn xs (d ∷ dsns') start h g eq =
      slice_at xs (to_le_bytes 8 sn) (dsn_bytes dsns' ++ z) start (start + 8)
        (eq ∙ ap (λ v. xs ++ (to_le_bytes 8 v ++ (dsn_bytes dsns' ++ z))) same) (omega arith) refl
    where
      same : d ≡ sn
      same = cc
  dsn_slice (suc i) sn xs (d ∷ dsns') start h g eq =
      dsn_slice i sn (xs ++ to_le_bytes 8 d) dsns' start
        (omega (arith, length-append xs (to_le_bytes 8 d))) g
        (eq
          ∙ ap (λ t. xs ++ t) (append_assoc (to_le_bytes 8 d) (dsn_bytes dsns') z)
          ∙ sym (append_assoc xs (to_le_bytes 8 d) (dsn_bytes dsns' ++ z)))

  -- The deactivated serial numbers.
  pub get_deactived_sn-bytes :
      (i sn : ℕ) → get_elem? dsns i ≡ some sn → get_deactived_sn bo bz i ≡ some sn
  unfolding get_deactived_sn
  get_deactived_sn-bytes i sn g =
      rw
        (
          get_kv_len-bytes,
          dsn_slice i sn (to_serial e dsns) dsns (53 + length e.key + length e.value + i * 8)
              (omega (arith, l5)) g at_dsns,
          read_word sn (w.each_fits i sn g),
        )
        refl

  -- The whole entry.
  pub from_bz-bytes : from_bz bo bz ≡ some e
  unfolding from_bz
  from_bz-bytes =
      rw (key-bytes, value-bytes, next_key_hash-bytes, version-bytes, serial_number-bytes) refl

  get_entry_len-bytes : get_entry_len bo bz ≡ some (length bz)
  unfolding get_entry_len get_serialized_len
  get_entry_len-bytes =
      rw get_kv_len-bytes (ap some (omega (arith, size e dsns w.next_size, w.dsns_fit)))

-- An entry whose fields fit their widths is read back from the bytes that `entry_to_bytes` makes
-- of it in any buffer with room for it: every field, and every deactivated serial number.
pub from_bz-entry_to_bytes :
    (bo : ByteOrder) (e : Entry) (dsns b : List ℕ)
    → IsEncodable e dsns
    → get_serialized_len e (length dsns) ≤ length b
    → (bz : List ℕ) × (entry_to_bytes bo e dsns b ≡ some bz)
      × (length bz ≡ get_serialized_len e (length dsns))
      × (from_bz bo bz ≡ some e)
      × (get_entry_len bo bz ≡ some (length bz))
      × ((i sn : ℕ) → get_elem? dsns i ≡ some sn → get_deactived_sn bo bz i ≡ some sn)
unfolding entry_to_bytes
from_bz-entry_to_bytes bo e dsns b w fits = (
  bytes_of e dsns,
  rw
      (
        dump_lem bo e dsns b w.next_size fits,
        slice-append [] (bytes_of e dsns) (drop (length (bytes_of e dsns)) b) 0
            (get_serialized_len e (length dsns)) refl (omega (arith, size e dsns w.next_size)),
      )
      refl,
  size e dsns w.next_size,
  from_bz-bytes bo e dsns w,
  get_entry_len-bytes bo e dsns w,
  get_deactived_sn-bytes bo e dsns w,
)
