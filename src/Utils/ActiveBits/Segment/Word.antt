-- ===== src/Utils/ActiveBits/Segment/Word.antt =====
-- `Segment` of qmdb/src/utils/activebits.rs: replacing one word of a segment.
use qmdb.Common.{
  ℕ, ◌+◌, ◌/◌, ◌%◌, ◌^◌, ◌<◌, ◌≤◌, ◌≡◌, ◌≢◌, List, length, get_or, set as set_elem, sum_by, ◌==◌,
  if◌then◌else◌, arith, length-set, get_or-set_self, get_or-set_ne, sum_by-set, sum_by-le, ◌∙◌,
}
use qmdb.Common.Bits.{bit_at, ones, ones-le, ones_differ}

abbrev pub word_at : List ℕ → ℕ → ℕ
word_at arr i = get_or arr i 0

-- Bit `n` of an array of 32-bit words.
abbrev pub bit : List ℕ → ℕ → ℕ
bit arr n = bit_at (word_at arr (n / 32)) (n % 32)

abbrev pub total : List ℕ → ℕ
total arr = sum_by (ones 32) arr

-- A well-formed array.
pub record IsWords (arr : List ℕ) : Type 0 where
  pub size : length arr ≡ 1024
  pub fits : (i : ℕ) → word_at arr i < 2 ^ 32

pub total-le : (arr : List ℕ) → length arr ≡ 1024 → total arr ≤ 32768
total-le arr h = omega (arith, sum_by-le (ones 32) 32 arr (ones-le 32))

-- `w` is the word of bit `n`, with that bit made `b`.
pub record Updates (arr : List ℕ) (n w b : ℕ) : Type 0 where
  pub inside : n < 32768
  pub word : w < 2 ^ 32
  pub bits :
      (i : ℕ) → i < 32 → bit_at w i ≡ (if i == n % 32 then b else bit_at (word_at arr (n / 32)) i)

module _ (arr : List ℕ) (v : IsWords arr) (n w b : ℕ) (u : Updates arr n w b) where
  abbrev updated : List ℕ
  updated = set_elem arr (n / 32) w

  index_in_range : n / 32 < length arr
  index_in_range = omega (arith, v.size, u.inside)

  word_at-updated : (i : ℕ) → word_at updated i ≡ (if i == n / 32 then w else word_at arr i)
  word_at-updated i =
      ground
        (arith, get_or-set_self arr (n / 32) w 0 index_in_range, get_or-set_ne arr (n / 32) i w 0)

  pub updated-IsWords : IsWords updated
  updated-IsWords = record {
    size = length-set arr (n / 32) w ∙ v.size;
    fits = λ i. ground (arith, word_at-updated i, v.fits i, u.word);
  }

  pub bit-updated : (k : ℕ) → bit updated k ≡ (if k == n then b else bit arr k)
  bit-updated k = ground (arith, word_at-updated (k / 32), u.bits (k % 32))

  pub total-updated : total updated + bit arr n ≡ total arr + b
  total-updated = omega (
    arith,
    sum_by-set (ones 32) arr (n / 32) w 0 index_in_range,
    ones_differ 32 w (word_at arr (n / 32)) (n % 32) (omega arith) others,
    at_n,
  )
    where
      at_n : bit_at w (n % 32) ≡ b
      at_n = ground (arith, u.bits (n % 32))

      others : (i : ℕ) → i < 32 → i ≢ n % 32 → bit_at w i ≡ bit_at (word_at arr (n / 32)) i
      others i h ne = ground (arith, u.bits i h)
