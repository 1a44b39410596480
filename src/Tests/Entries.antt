-- ===== src/Tests/Entries.antt =====
-- Entries of qmdb/src/entryfile/entry.rs, written and read back.
use qmdb.Common.{
  ℕ, zero, suc, ◌+◌, ◌-◌, ◌*◌, ◌/◌, ◌%◌, ◌^◌, ◌<◌, ◌≤◌, ◌≡◌, refl, List, [], ◌∷◌, ◌++◌, none, some,
  length, replicate, set, get_elem?, arith,
}
use qmdb.Common.Bytes.{written}
use qmdb.Def.{big_buf_size}
use qmdb.Extern.Byteorder.{plain_order}
use qmdb.Entryfile.Entry.{
  Entry, get_serialized_len, dump, entry_to_bytes, from_bz, get_entry_len, get_deactived_sn,
  sentry_entry, key_hash,
}
use qmdb.Entryfile.Entry.Dump.{payload, pad, dump_lem}
use qmdb.Entryfile.Entry.Fields.{IsEncodable, from_bz-entry_to_bytes}
use qmdb.Entryfile.Entry.Sentry.{hash16, sentry, sentry_entry_lem}
use qmdb.Entryfile.EntryVec.{EntryVec, add_position}
use qmdb.Entryfile.EntryVec.Places.{IsPlaced, add_position_lem}
use qmdb.Tests.Data.{zero_sha}

abbrev entry : Entry
entry = record {
  key = 107 ∷ 101 ∷ 121 ∷ [];
  value = 118 ∷ 97 ∷ [];
  next_key_hash = replicate 32 9;
  version = 3;
  serial_number = 70000;
}

encodable : IsEncodable entry (77 ∷ [])
encodable = record {
  key_fits = omega arith;
  value_fits = omega arith;
  next_size = refl;
  version_fits = omega arith;
  serial_fits = omega arith;
  dsns_fit = omega arith;
  each_fits = each;
}
  where
    each : (i sn : ℕ) → get_elem? (77 ∷ []) i ≡ some sn → sn < 256 ^ 8
    each zero sn g = ground (arith, g)
    each (suc i) sn g = absurd (cc)

room : get_serialized_len entry 1 ≤ length (replicate {A = ℕ} 80 1)
unfolding get_serialized_len
room = omega arith

from_bz-entry_to_bytes_example :
    (bz : List ℕ) × (entry_to_bytes plain_order entry (77 ∷ []) (replicate 80 1) ≡ some bz)
    × (length bz ≡ get_serialized_len entry 1)
    × (from_bz plain_order bz ≡ some entry)
    × (get_entry_len plain_order bz ≡ some (length bz))
    × ((i sn : ℕ) → get_elem? (77 ∷ []) i ≡ some sn → get_deactived_sn plain_order bz i ≡ some sn)
from_bz-entry_to_bytes_example =
    from_bz-entry_to_bytes plain_order entry (77 ∷ []) (replicate 80 1) encodable room

dump_lem_example :
    dump plain_order entry (replicate 80 1) (77 ∷ [])
    ≡ some (
      written (replicate 80 1) (payload entry (77 ∷ []) ++ replicate (pad entry (77 ∷ [])) 0),
      get_serialized_len entry 1,
    )
dump_lem_example = dump_lem plain_order entry (77 ∷ []) (replicate 80 1) refl room

sentry_entry_lem_example :
    (bz : List ℕ) × (sentry_entry plain_order 15 4095 (replicate 88 0) ≡ some bz)
    × (from_bz plain_order bz ≡ some (sentry (15 * 4096 + 4095) 4095))
    × (key_hash plain_order zero_sha bz ≡ some (hash16 (15 * 4096 + 4095)))
sentry_entry_lem_example =
    (sentry_entry_lem plain_order zero_sha 15 4095 (replicate 88 0) (omega arith)).1 (omega arith)
      (omega arith)

-- A vector whose one buffer is exactly full.
abbrev full : EntryVec
full = record { buf_list = [] ∷ []; pos_list = [] ∷ []; next_pos = 65536 }

placed : IsPlaced full
placed = record { some_buffer = omega arith; from_last = omega arith; to_end = omega arith }

add_position_lem_example :
    (offset pos : ℕ) × (v : EntryVec) × (add_position full 0 88 ≡ some (offset, v))
    × (v.pos_list ≡ set full.pos_list 0 ([] ++ (pos ∷ [])))
    × (v.next_pos ≡ pos + 88)
    × (full.next_pos < length full.buf_list * big_buf_size
        → (pos / big_buf_size ≡ length v.buf_list - 1)
          × (pos % big_buf_size ≡ offset)
          × (offset + 88 ≤ big_buf_size)
          × IsPlaced v)
    × (full.next_pos ≡ length full.buf_list * big_buf_size
        → (get_elem? v.buf_list (pos / big_buf_size) ≡ none) × (offset ≡ 0))
add_position_lem_example = add_position_lem full 0 88 [] placed (omega arith) (omega arith) refl
