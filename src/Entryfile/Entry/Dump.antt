-- ===== src/Entryfile/Entry/Dump.antt =====
-- `Entry::dump` of qmdb/src/entryfile/entry.rs: the bytes it writes.
use qmdb.Common.{
  ℕ, zero, suc, ◌+◌, ◌-◌, ◌*◌, ◌%◌, ◌^◌, ◌<◌, ◌≤◌, ◌≡◌, refl, ap, ◌∙◌, List, [], ◌∷◌, ◌++◌, some,
  length, replicate, ltb, leb, ◌==◌, arith, length-append, true, false,
}
use mathlib.Core.List.{append_assoc, append-nil}
use qmdb.Common.Bytes.{put, put-written, written, to_le_bytes}
use qmdb.Extern.Byteorder.{ByteOrder}
use qmdb.Entryfile.Entry.{Entry, get_serialized_len, dump_dsns, dump_padding, dump}

abbrev pub dsn_bytes : List ℕ → List ℕ
dsn_bytes [] = []
dsn_bytes (sn ∷ rest) = to_le_bytes 8 sn ++ dsn_bytes rest

pub length-dsn_bytes : (dsns : List ℕ) → length (dsn_bytes dsns) ≡ 8 * length dsns
length-dsn_bytes [] = refl
length-dsn_bytes (sn ∷ rest) =
    omega (arith, length-append (to_le_bytes 8 sn) (dsn_bytes rest), length-dsn_bytes rest)

abbrev pub first32 : Entry → ℕ
first32 e = (length e.value * 256 + length e.key) % 2 ^ 32

-- The bytes before the padding, in the order in which `dump` writes them.
abbrev pub payload : Entry → List ℕ → List ℕ
payload e dsns =
    to_le_bytes 4 (first32 e)
    ++ ((length dsns % 2 ^ 8)
        ∷ (e.key
            ++ (e.value
                ++ (e.next_key_hash
                    ++ (to_le_bytes 8 e.version
                        ++ (to_le_bytes 8 e.serial_number ++ dsn_bytes dsns))))))

abbrev pub pad : Entry → List ℕ → ℕ
pad e dsns = get_serialized_len e (length dsns) - length (payload e dsns)

pub length-payload :
    (e : Entry) (dsns : List ℕ)
    → length e.next_key_hash ≡ 32
    → length (payload e dsns) ≡ 53 + length e.key + length e.value + 8 * length dsns
length-payload e dsns h =
    let t5 = to_le_bytes 8 e.serial_number ++ dsn_bytes dsns in
    let t4 = to_le_bytes 8 e.version ++ t5 in
    let t3 = e.next_key_hash ++ t4 in
    let t2 = e.value ++ t3 in
    omega (
      arith,
      length-append e.key t2,
      length-append e.value t3,
      length-append e.next_key_hash t4,
      length-append (to_le_bytes 8 e.version) t5,
      length-append (to_le_bytes 8 e.serial_number) (dsn_bytes dsns),
      length-dsn_bytes dsns,
      h,
    )

-- The fields, one after the other.
module _ (e : Entry) (dsns : List ℕ) where
  abbrev pub to_head : List ℕ
  to_head = to_le_bytes 4 (first32 e) ++ (length dsns % 2 ^ 8 ∷ [])

  abbrev pub to_key : List ℕ
  to_key = to_head ++ e.key

  abbrev pub to_value : List ℕ
  to_value = to_key ++ e.value

  abbrev pub to_next : List ℕ
  to_next = to_value ++ e.next_key_hash

  abbrev pub to_version : List ℕ
  to_version = to_next ++ to_le_bytes 8 e.version

  abbrev pub to_serial : List ℕ
  to_serial = to_version ++ to_le_bytes 8 e.serial_number

  pub all_fields : to_serial ++ dsn_bytes dsns ≡ payload e dsns
  all_fields =
      rw
        (
          append_assoc to_version (to_le_bytes 8 e.serial_number) (dsn_bytes dsns),
          append_assoc to_next (to_le_bytes 8 e.version)
              (to_le_bytes 8 e.serial_number ++ dsn_bytes dsns),
          append_assoc to_value e.next_key_hash
              (to_le_bytes 8 e.version ++ (to_le_bytes 8 e.serial_number ++ dsn_bytes dsns)),
          append_assoc to_key e.value (
              e.next_key_hash
              ++ (to_le_bytes 8 e.version ++ (to_le_bytes 8 e.serial_number ++ dsn_bytes dsns))),
          append_assoc to_head e.key (
              e.value
              ++ (e.next_key_hash
                  ++ (to_le_bytes 8 e.version
                      ++ (to_le_bytes 8 e.serial_number ++ dsn_bytes dsns)))),
        )
        refl

module _ (bo : ByteOrder) where
  dump_dsns-written :
      (dsns b done : List ℕ) (i : ℕ)
      → length done ≡ i
      → i + 8 * length dsns ≤ length b
      → dump_dsns bo (written b done) i dsns
        ≡ some (written b (done ++ dsn_bytes dsns), i + 8 * length dsns)
  unfolding dump_dsns
  dump_dsns-written [] b done i h fits =
      let e : i + 0 ≡ i = omega arith in rw (append-nil done, e) refl
  dump_dsns-written (sn ∷ dsns) b done i h fits =
      let sum : i + 8 + 8 * length dsns ≡ i + 8 * suc (length dsns) = omega arith in
      let next =
        dump_dsns-written dsns b (done ++ to_le_bytes 8 sn) (i + 8)
          (omega (arith, length-append done (to_le_bytes 8 sn))) (omega arith) in
      rw
        (
          bo.write_le-bytes 8 sn,
          put-written b done (to_le_bytes 8 sn) i h (omega arith),
          next,
          append_assoc done (to_le_bytes 8 sn) (dsn_bytes dsns),
          sum,
        )
        refl

  dump_padding-written :
      (fuel k : ℕ) (b done : List ℕ) (i : ℕ)
      → length done ≡ i
      → k < fuel
      → k < 8
      → (i + k) % 8 ≡ 0
      → i + k ≤ length b
      → dump_padding bo fuel (written b done) i ≡ some (written b (done ++ replicate k 0), i + k)
  unfolding dump_padding
  dump_padding-written zero k b done i h lt small even fits = absurd (omega arith)
  dump_padding-written (suc fuel) zero b done i h lt small even fits =
      let e : i + 0 ≡ i = omega arith in
      let stops : (i % 8 == 0) ≡ true = ground (arith, even) in
      rw (dump_padding, stops, append-nil done, e) refl
  dump_padding-written (suc fuel) (suc k) b done i h lt small even fits =
      let goes : (i % 8 == 0) ≡ false = ground (arith, even) in
      let sum : i + 1 + k ≡ i + suc k = omega arith in
      let next =
        dump_padding-written fuel k b (done ++ (0 ∷ [])) (i + 1)
          (omega (arith, length-append done (0 ∷ []))) (omega arith) (omega arith)
          (omega (arith, even)) (omega arith) in
      rw
        (
          dump_padding,
          goes,
          put-written b done (0 ∷ []) i h (omega arith),
          next,
          append_assoc done (0 ∷ []) (replicate k 0),
          sum,
        )
        refl

  -- The header: the fifth byte first, then the first four.
  header :
      (b first : List ℕ) (d : ℕ)
      → length first ≡ 4
      → 5 ≤ length b
      → (b0 : List ℕ) × (put b 4 (d ∷ []) ≡ some b0)
        × (put b0 0 first ≡ some (written b (first ++ (d ∷ []))))
  header [] first d h fits = absurd (omega arith)
  header (a0 ∷ []) first d h fits = absurd (omega arith)
  header (a0 ∷ a1 ∷ []) first d h fits = absurd (omega arith)
  header (a0 ∷ a1 ∷ a2 ∷ []) first d h fits = absurd (omega arith)
  header (a0 ∷ a1 ∷ a2 ∷ a3 ∷ []) first d h fits = absurd (omega arith)
  header (a0 ∷ a1 ∷ a2 ∷ a3 ∷ a4 ∷ b) first d h fits =
      let room : leb (4 + 1) (suc (suc (suc (suc (suc (length b)))))) ≡ true = ground arith in
      let again : leb (0 + length first) (suc (suc (suc (suc (suc (length b)))))) ≡ true =
        ground arith in
      let size : length (first ++ (d ∷ [])) ≡ 5 = omega (arith, length-append first (d ∷ [])) in
      (
        a0 ∷ a1 ∷ a2 ∷ a3 ∷ d ∷ b,
        rw room refl,
        rw (again, h, size, append_assoc first (d ∷ []) b) refl,
      )

  module _ (e : Entry) (dsns : List ℕ) where
    -- With a next key hash of 32 bytes and room for the entry, `dump` returns the serialized length
    -- and has overwritten that many bytes: the lengths, the number of deactivated serial numbers,
    -- key, value, next key hash, version, serial number and the deactivated ones, and then zeros.
    pub dump_lem :
        (b : List ℕ)
        → length e.next_key_hash ≡ 32
        → get_serialized_len e (length dsns) ≤ length b
        → dump bo e b dsns
          ≡ some (
            written b (payload e dsns ++ replicate (pad e dsns) 0),
            get_serialized_len e (length dsns),
          )
    unfolding dump get_serialized_len
    dump_lem b h fits =
        let l1 : length (to_key e dsns) ≡ 5 + length e.key =
          omega (arith, length-append (to_head e dsns) e.key) in
        let l2 : length (to_value e dsns) ≡ 5 + length e.key + length e.value =
          omega (arith, l1, length-append (to_key e dsns) e.value) in
        let l3 : length (to_next e dsns) ≡ 5 + length e.key + length e.value + 32 =
          omega (arith, l2, h, length-append (to_value e dsns) e.next_key_hash) in
        let l4 : length (to_version e dsns) ≡ 5 + length e.key + length e.value + 32 + 8 =
          omega (arith, l3, length-append (to_next e dsns) (to_le_bytes 8 e.version)) in
        let l5 : length (to_serial e dsns) ≡ 5 + length e.key + length e.value + 32 + 8 + 8 =
          omega (arith, l4, length-append (to_version e dsns) (to_le_bytes 8 e.serial_number)) in
        let test : ltb (length b) (get_serialized_len e (length dsns)) ≡ false = ground arith in
        let hash_test : (length e.next_key_hash == 32) ≡ true = ground arith in
        let (b0, w0, w1) =
          header b (to_le_bytes 4 (first32 e)) (length dsns % 2 ^ 8) refl (omega arith) in
        let w2 = put-written b (to_head e dsns) e.key 5 refl (omega arith) in
        let w3 = put-written b (to_key e dsns) e.value (5 + length e.key) l1 (omega arith) in
        let w4 =
          put-written b (to_value e dsns) e.next_key_hash (5 + length e.key + length e.value) l2
            (omega arith) in
        let w5 =
          put-written b (to_next e dsns) (to_le_bytes 8 e.version)
            (5 + length e.key + length e.value + 32) l3 (omega arith) in
        let w6 =
          put-written b (to_version e dsns) (to_le_bytes 8 e.serial_number)
            (5 + length e.key + length e.value + 32 + 8) l4 (omega arith) in
        let w7 =
          dump_dsns-written dsns b (to_serial e dsns)
            (5 + length e.key + length e.value + 32 + 8 + 8) l5 (omega arith) in
        let n : ℕ = 5 + length e.key + length e.value + 32 + 8 + 8 + 8 * length dsns in
        let total = get_serialized_len e (length dsns) in
        let l7 : length (payload e dsns) ≡ n = omega (arith, length-payload e dsns h) in
        let w8 =
          dump_padding-written 8 (pad e dsns) b (payload e dsns) n l7 (omega arith) (omega arith)
            (omega arith) (omega arith) in
        let sum : n + pad e dsns ≡ total = omega arith in
        rw
          (
            dump,
            test,
            bo.write_le-bytes 4 (first32 e),
            w0,
            w1,
            w2,
            w3,
            hash_test,
            w4,
            bo.write_le-bytes 8 e.version,
            w5,
            bo.write_le-bytes 8 e.serial_number,
            w6,
            w7 ∙ ap (λ x. some (written b x, n)) (all_fields e dsns),
            w8,
            sum,
          )
          refl
