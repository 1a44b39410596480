-- ===== src/Merkletree/ActiveBits.antt =====
-- `ActiveBits` of qmdb/src/merkletree/twig.rs: one bit for each of the 2048 leaves of a twig, in
-- 256 bytes. `none` is a panic, that of an index out of range included.
pub mod Laws
use qmdb.Common.{
  ℕ, ◌+◌, ◌*◌, ◌/◌, ◌^◌, List, Bool, not, Option, some, get_elem?, set, replicate, ltb, ◌==◌, ◌>>=◌,
  ◌>>◌, assert, bit_and, bit_or,
}
use qmdb.Common.Bits.{bit_not}
use qmdb.Common.Bytes.{slice}
use qmdb.Def.{leaf_count_in_twig}

pub record ActiveBits : Type 0 where
  pub bytes : List ℕ

pub new : ActiveBits
new = record { bytes = replicate 256 0 }

pub set_bit : ActiveBits → ℕ → Option ActiveBits
set_bit ab offset = do
  assert (not (ltb leaf_count_in_twig offset))
  let mask = 2 ^ bit_and offset 0x7
  let pos = offset / 2 ^ 3
  old ← get_elem? ab.bytes pos
  some (record { bytes = set ab.bytes pos (bit_or old mask) })

pub clear_bit : ActiveBits → ℕ → Option ActiveBits
clear_bit ab offset = do
  assert (not (ltb leaf_count_in_twig offset))
  let mask = 2 ^ bit_and offset 0x7
  let pos = offset / 2 ^ 3
  old ← get_elem? ab.bytes pos
  some (record { bytes = set ab.bytes pos (bit_and old (bit_not 8 mask)) })

pub get_bit : ActiveBits → ℕ → Option Bool
get_bit ab offset = do
  assert (not (ltb leaf_count_in_twig offset))
  let mask = 2 ^ bit_and offset 0x7
  let pos = offset / 2 ^ 3
  old ← get_elem? ab.bytes pos
  some (not (bit_and old mask == 0))

unfoldable pub get_bits : ActiveBits → ℕ → ℕ → Option (List ℕ)
get_bits ab page_num page_size = slice ab.bytes (page_num * page_size) ((page_num + 1) * page_size)
