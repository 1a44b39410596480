-- ===== src/Utils/ActiveBits/Segment.antt =====
-- `Segment` of qmdb/src/utils/activebits.rs: 1024 words with a count of the bits that are set.
pub mod Word
pub mod Laws
use qmdb.Common.{
  ℕ, ◌+◌, ◌-◌, ◌/◌, ◌%◌, ◌^◌, bit_and, bit_or, List, Bool, false, not, Option, some, replicate,
  get_elem?, set as set_elem, ◌==◌, if◌then◌else◌, ◌>>=◌,
}
use qmdb.Common.Bits.{bit_not}

abbrev pub u32_count : ℕ
u32_count = 1024

pub record Segment : Type 0 where
  pub count : ℕ
  pub arr : List ℕ

pub new : Segment
new = record { count = 0; arr = replicate u32_count 0 }

pub get : Segment → ℕ → Option Bool
get s n = do
  let mask = 2 ^ (n % 32)
  old ← get_elem? s.arr (n / 32)
  some (not (bit_and old mask == 0))

pub set : Segment → ℕ → Option Segment
set s n = do
  let mask = 2 ^ (n % 32)
  old ← get_elem? s.arr (n / 32)
  let s' = record s { arr = set_elem s.arr (n / 32) (bit_or old mask) }
  some (if bit_and old mask == 0 then record s' { count = (s.count + 1) % 2 ^ 32 } else s')

-- The result says whether the last bit went.
pub clear : Segment → ℕ → Option (Segment × Bool)
clear s n = do
  let mask = 2 ^ (n % 32)
  old ← get_elem? s.arr (n / 32)
  let s' = record s { arr = set_elem s.arr (n / 32) (bit_and old (bit_not 32 mask)) }
  some (
      if not (bit_and old mask == 0)
      then (record s' { count = (s.count + 2 ^ 32 - 1) % 2 ^ 32 }, s.count == 1)
      else (s', false))
