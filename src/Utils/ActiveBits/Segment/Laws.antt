-- ===== src/Utils/ActiveBits/Segment/Laws.antt =====
-- `Segment` of qmdb/src/utils/activebits.rs: what its calls do to the bits and to the count.
use qmdb.Common.{
  ℕ, ◌+◌, ◌-◌, ◌/◌, ◌%◌, ◌^◌, ◌<◌, ◌≡◌, refl, Bool, true, false, not, some, get_elem?,
  set as set_elem, ◌==◌, if◌then◌else◌, arith, bit_or, bit_and, get_elem?-eq-get_or,
  get_or-replicate, List, ◌≤◌, length-replicate, sum_by-replicate, le-sum_by, replicate,
}
use qmdb.Common.Bits.{
  bit_not, ones, bit_at-set, bit_at-clear, bit_or-lt, bit_and-lt, two-pow-lt, test_bit,
  bit_at-le-ones, bit_at-le-one, bit_at-zero,
}
use qmdb.Utils.ActiveBits.Segment.{Segment, new, get, set, clear}
use qmdb.Utils.ActiveBits.Segment.Word.{
  word_at, bit, total, IsWords, Updates, total-le, updated-IsWords, bit-updated, total-updated,
}

-- The count of a segment is the number of its set bits.
pub record IsSegment (s : Segment) : Type 0 where
  pub words : IsWords s.arr
  pub counted : s.count ≡ total s.arr

pub new-IsSegment : IsSegment new
unfolding new
new-IsSegment = record {
  words = record {
    size = length-replicate {A = ℕ} 1024 0;
    fits = λ i. omega (arith, get_or-replicate {A = ℕ} 1024 i 0);
  };
  counted = sum_by-replicate {A = ℕ} (ones 32) 1024 0 refl;
}

pub bit-new : (n : ℕ) → bit new.arr n ≡ 0
unfolding new
bit-new n =
    let e : word_at (replicate 1024 0) (n / 32) ≡ 0 = get_or-replicate 1024 (n / 32) 0 in
    rw e (bit_at-zero (n % 32))

module _ (s : Segment) (v : IsSegment s) (n : ℕ) (h : n < 32768) where
  abbrev pub old : ℕ
  old = word_at s.arr (n / 32)

  loads : get_elem? s.arr (n / 32) ≡ some old
  loads = get_elem?-eq-get_or s.arr (n / 32) 0 (omega (arith, v.words.size))

  pub get_lem : get s n ≡ some (not (bit s.arr n == 0))
  unfolding get
  get_lem = rw (loads, test_bit old (n % 32)) refl

  set-Updates : Updates s.arr n (bit_or old (2 ^ (n % 32))) 1
  set-Updates = record {
    inside = h;
    word =
        bit_or-lt 32 old (2 ^ (n % 32)) (v.words.fits (n / 32))
          (two-pow-lt (n % 32) 32 (omega arith));
    bits = λ i p. bit_at-set old (n % 32) i;
  }

  clear-Updates : Updates s.arr n (bit_and old (bit_not 32 (2 ^ (n % 32)))) 0
  clear-Updates = record {
    inside = h;
    word = bit_and-lt 32 old _ (v.words.fits (n / 32));
    bits = λ i p. bit_at-clear 32 old (n % 32) i (omega arith) p;
  }

  abbrev pub stored : List ℕ
  stored = set_elem s.arr (n / 32) (bit_or old (2 ^ (n % 32)))

  abbrev pub set_result : Segment
  set_result =
      let s' = record s { arr = stored } in
      if bit s.arr n == 0 then record s' { count = (s.count + 1) % 2 ^ 32 } else s'

  pub set_returns : set s n ≡ some set_result
  unfolding set
  set_returns = rw (loads, test_bit old (n % 32)) refl

  abbrev pub cleared : List ℕ
  cleared = set_elem s.arr (n / 32) (bit_and old (bit_not 32 (2 ^ (n % 32))))

  abbrev pub clear_result : Segment × Bool
  clear_result =
      let s' = record s { arr = cleared } in
      if not (bit s.arr n == 0)
      then (record s' { count = (s.count + 2 ^ 32 - 1) % 2 ^ 32 }, s.count == 1)
      else (s', false)

  pub clear_returns : clear s n ≡ some clear_result
  unfolding clear
  clear_returns = rw (loads, test_bit old (n % 32)) refl

  set_total : total stored + bit s.arr n ≡ total s.arr + 1
  set_total = total-updated s.arr v.words n _ 1 set-Updates

  clear_total : total cleared + bit s.arr n ≡ total s.arr + 0
  clear_total = total-updated s.arr v.words n _ 0 clear-Updates

  set_result_arr : set_result.arr ≡ stored
  set_result_arr = ground arith

  clear_result_arr : clear_result.0.arr ≡ cleared
  clear_result_arr = ground arith

  small : total s.arr ≤ 32768
  small = total-le s.arr v.words.size

  held : bit s.arr n ≤ total s.arr
  held = omega (
    arith,
    bit_at-le-ones 32 old (n % 32) (omega arith),
    le-sum_by (ones 32) s.arr (n / 32) 0 (omega (arith, v.words.size)),
  )

  -- Setting a bit keeps the segment well formed and leaves it with some bit set.
  pub set_result-IsSegment : IsSegment set_result × (0 < set_result.count)
  set_result-IsSegment = (
    record {
      words = rw set_result_arr (updated-IsWords s.arr v.words n _ 1 set-Updates);
      counted = ground (arith, v.counted, set_total, small, bit_at-le-one old (n % 32));
    },
    ground (arith, v.counted, small, held),
  )

  pub set_result-bits : (k : ℕ) → bit set_result.arr k ≡ (if k == n then 1 else bit s.arr k)
  set_result-bits k = rw set_result_arr (bit-updated s.arr v.words n _ 1 set-Updates k)

  -- The second result of `clear` says exactly when the last bit went.
  pub clear_result-IsSegment :
      IsSegment clear_result.0
      × (clear_result.1 ≡ true → clear_result.0.count ≡ 0)
      × (clear_result.1 ≡ false → 0 < s.count → 0 < clear_result.0.count)
  clear_result-IsSegment = (
    record {
      words = rw clear_result_arr (updated-IsWords s.arr v.words n _ 0 clear-Updates);
      counted = ground (arith, v.counted, clear_total, small, held, bit_at-le-one old (n % 32));
    },
    λ e. ground (arith, v.counted, small, held),
    λ e p. ground (arith, v.counted, small, held),
  )

  pub clear_result-bits : (k : ℕ) → bit clear_result.0.arr k ≡ (if k == n then 0 else bit s.arr k)
  clear_result-bits k = rw clear_result_arr (bit-updated s.arr v.words n _ 0 clear-Updates k)

-- A segment with no bit counted has none.
pub bit_of_count_zero :
    (s : Segment) → IsSegment s → s.count ≡ 0 → (n : ℕ) → n < 32768 → bit s.arr n ≡ 0
bit_of_count_zero s v e n h = omega (arith, held s v n h, v.counted)
