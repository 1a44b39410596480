-- ===== src/Utils/ShortList.antt =====
-- `ShortList` of qmdb/src/utils/shortlist.rs: up to two numbers in 14 bytes, or a vector. An `i64` is
-- the number below 2^64 with the same bits; `none` is a panic.
pub mod Laws
use qmdb.Common.{
  ℕ, zero, suc, ◌+◌, ◌*◌, ◌/◌, ◌%◌, ◌^◌, List, [], ◌∷◌, ◌++◌, Bool, true, false, Option, none, some,
  length, get_elem?, set, replicate, leb, ◌==◌, ◌>>=◌,
}
use qmdb.Common.Bytes.{slice, put}
use qmdb.Extern.Byteorder.{ByteOrder}

pub data ShortList : Type 0 where
  array : ℕ → List ℕ → ShortList
  vector : List ℕ → ShortList

abbrev pub new : ShortList
new = array 0 (replicate 14 0)

abbrev pub element_count : ShortList → ℕ
element_count (array size arr) = size
element_count (vector v) = length v

-- The shifts that clear the highest byte.
abbrev pub low_bytes : ℕ → ℕ
low_bytes word = word * 2 ^ 8 % 2 ^ 64 / 2 ^ 8

pub clear : ShortList → ShortList
clear (array size arr) = array 0 arr
clear (vector v) = vector []

module _ (bo : ByteOrder) where
  pub get : ShortList → ℕ → Option ℕ
  get (array size arr) zero = do word ← slice arr 0 8; some (low_bytes (bo.read_le word))
  get (array size arr) (suc idx) = do word ← slice arr 6 14; some (low_bytes (bo.read_be word))
  get (vector v) idx = get_elem? v idx

  -- Whether one of the `count` elements from `idx` on is `elem`.
  pub has_from : ℕ → ℕ → ShortList → ℕ → Option Bool
  unfolding get
  has_from zero idx l elem = some false
  has_from (suc count) idx l elem = do
    v ← get l idx
    elim (v == elem) [ true ↦ some true | false ↦ has_from count (idx + 1) l elem ]

  unfoldable contains : ShortList → ℕ → Option Bool
  unfolding has_from
  contains l elem = has_from (element_count l) 0 l elem

  pub push_array : ℕ → List ℕ → ℕ → Option ShortList
  unfolding get
  push_array zero arr elem = do arr' ← put arr 0 (bo.write_le 8 elem); some (array 1 arr')
  push_array (suc zero) arr elem = do
    byte ← get_elem? arr 6
    arr' ← put arr 6 (bo.write_be 8 elem)
    some (array 2 (set arr' 6 byte))
  push_array (suc (suc size)) arr elem = do
    first ← get (array (suc (suc size)) arr) 0
    second ← get (array (suc (suc size)) arr) 1
    some (vector (first ∷ second ∷ elem ∷ []))

  pub append : ShortList → ℕ → Option ShortList
  unfolding has_from push_array
  append l elem = do
    found ← has_from (element_count l) 0 l elem
    elim found [
      | true ↦ some l
      | false ↦ elim l [
        | array size arr ↦ push_array size arr elem
        | vector v ↦ some (vector (v ++ (elem ∷ [])))
      ]
    ]

  unfoldable from : ℕ → Option ShortList
  unfolding append
  from elem = append new elem

  -- `ShortListIter::next` at an index: the end, or the element and the index after it.
  unfoldable iter_next : ShortList → ℕ → Option (Option (ℕ × ℕ × ℕ))
  unfolding get
  iter_next l idx = elim (leb (element_count l) idx) [
    | true ↦ some none
    | false ↦ do e ← get l idx; some (some (idx, e, idx + 1))
  ]
