-- ===== src/Entryfile/Entry/Sentry.antt =====
-- `sentry_entry` of qmdb/src/entryfile/entry.rs: the entries that a new shard starts from.
use qmdb.Common.{
  ℕ, ◌+◌, ◌*◌, ◌/◌, ◌%◌, ◌^◌, ◌<◌, ◌≤◌, ◌≡◌, refl, ap, ◌∙◌, List, [], ◌++◌, none, some, length,
  drop, replicate, leb, ◌||◌, true, false, ◌==◌, if◌then◌else◌, arith, bit_or, inl, inr, ◌⊎◌,
  Bool-cases,
}
use qmdb.Common.Bits.{bit_or-fields}
use qmdb.Common.Bytes.{slice-append, to_be_bytes}
use qmdb.Extern.Byteorder.{ByteOrder}
use qmdb.Extern.Sha2.{Sha256}
use qmdb.Utils.Hasher.{Hash32}
use qmdb.Entryfile.Entry.{
  Entry, get_serialized_len, dumped, sentry_of, sentry_entry, from_bz, key_hash,
}
use qmdb.Entryfile.Entry.Dump.{dump_lem}
use qmdb.Entryfile.Entry.Fields.{IsEncodable, bytes_of, size, from_bz-bytes, value-bytes}

-- The hash with the two given bytes in front.
abbrev pub hash16 : ℕ → Hash32
hash16 n = to_be_bytes 2 n ++ replicate 30 0

-- Sentry `n` of all shards' sentries, counted through.
abbrev pub sentry : ℕ → ℕ → Entry
sentry n sn = record {
  key = hash16 n;
  value = [];
  next_key_hash = if n == 65535 then replicate 32 255 else hash16 (n + 1);
  version = 0;
  serial_number = sn;
}

sentry-IsEncodable : (n sn : ℕ) → sn < 2 ^ 12 → IsEncodable (sentry n sn) []
sentry-IsEncodable n sn h = record {
  key_fits = omega arith;
  value_fits = omega arith;
  next_size = elim (Bool-cases (n == 65535)) [ inl e ↦ rw e refl | inr e ↦ rw e refl ];
  version_fits = omega arith;
  serial_fits = omega arith;
  dsns_fit = omega arith;
  each_fits = λ i v g. absurd (cc);
}

dumped-bytes :
    (bo : ByteOrder) (e : Entry) (b : List ℕ)
    → IsEncodable e []
    → get_serialized_len e 0 ≤ length b
    → dumped bo e b ≡ some (bytes_of e [])
unfolding dumped
dumped-bytes bo e b w fits =
    rw
      (
        dump_lem bo e [] b w.next_size fits,
        slice-append [] (bytes_of e []) (drop (length (bytes_of e [])) b) 0 (get_serialized_len e 0)
            refl (omega (arith, size e [] w.next_size)),
      )
      refl

sentry_of-eq : (bo : ByteOrder) (n sn : ℕ) → sentry_of bo n sn ≡ sentry n sn
sentry_of-eq bo n sn = rw (bo.write_be-bytes 2 n, bo.write_be-bytes 2 (n + 1)) refl

first16 :
    (shard_id sn : ℕ)
    → shard_id < 16
    → sn < 4096
    → bit_or (shard_id * 2 ^ 16 / 16) sn % 2 ^ 16 ≡ shard_id * 4096 + sn
first16 shard_id sn h k =
    let e : shard_id * 2 ^ 16 / 16 ≡ shard_id * 2 ^ 12 = omega arith in
    rw e (omega (arith, bit_or-fields 12 shard_id sn k))

sentry-key_hash :
    (bo : ByteOrder) (sha : Sha256) (n sn : ℕ)
    → sn < 2 ^ 12
    → key_hash bo sha (bytes_of (sentry n sn) []) ≡ some (hash16 n)
unfolding key_hash
sentry-key_hash bo sha n sn h =
    rw (value-bytes bo (sentry n sn) [] (sentry-IsEncodable n sn h)) refl

sentry_size : (n sn : ℕ) → get_serialized_len (sentry n sn) 0 ≡ 88
unfolding get_serialized_len
sentry_size n sn = refl

sentry_entry-runs :
    (bo : ByteOrder) (shard_id sn : ℕ) (b : List ℕ)
    → 88 ≤ length b
    → shard_id < 16
    → sn < 4096
    → sentry_entry bo shard_id sn b ≡ some (bytes_of (sentry (shard_id * 4096 + sn) sn) [])
unfolding sentry_entry
sentry_entry-runs bo shard_id sn b room h k =
    let test : (leb 16 shard_id || leb 4096 sn) ≡ false = ground arith in
    rw (test, first16 shard_id sn h k)
      (ap (λ e. dumped bo e b) (sentry_of-eq bo (shard_id * 4096 + sn) sn)
        ∙ dumped-bytes bo (sentry (shard_id * 4096 + sn) sn) b
            (sentry-IsEncodable (shard_id * 4096 + sn) sn k)
            (rw (sentry_size (shard_id * 4096 + sn) sn) room))

sentry_entry-panics :
    (bo : ByteOrder) (shard_id sn : ℕ) (b : List ℕ)
    → (16 ≤ shard_id) ⊎ (4096 ≤ sn)
    → sentry_entry bo shard_id sn b ≡ none
unfolding sentry_entry
sentry_entry-panics bo shard_id sn b h =
    let test : (leb 16 shard_id || leb 4096 sn) ≡ true = ground arith in rw test refl

-- `sentry_entry` panics on a shard or a serial number past the last. Otherwise, in a buffer of 88
-- bytes or more, it makes an entry with an empty value that is read back as sentry
-- `shard_id * 4096 + sn`: its key and key hash are the two bytes of that number, and its next key
-- hash is the key hash of the sentry that follows, or the largest hash after the last.
pub sentry_entry_lem :
    (bo : ByteOrder) (sha : Sha256) (shard_id sn : ℕ) (b : List ℕ)
    → 88 ≤ length b
    → ((16 ≤ shard_id) ⊎ (4096 ≤ sn) → sentry_entry bo shard_id sn b ≡ none)
      × (shard_id < 16
          → sn < 4096
          → (bz : List ℕ) × (sentry_entry bo shard_id sn b ≡ some bz)
            × (from_bz bo bz ≡ some (sentry (shard_id * 4096 + sn) sn))
            × (key_hash bo sha bz ≡ some (hash16 (shard_id * 4096 + sn))))
sentry_entry_lem bo sha shard_id sn b room = (
  sentry_entry-panics bo shard_id sn b,
  λ h k. (
    bytes_of (sentry (shard_id * 4096 + sn) sn) [],
    sentry_entry-runs bo shard_id sn b room h k,
    from_bz-bytes bo (sentry (shard_id * 4096 + sn) sn) []
        (sentry-IsEncodable (shard_id * 4096 + sn) sn k),
    sentry-key_hash bo sha (shard_id * 4096 + sn) sn k,
  ),
)
