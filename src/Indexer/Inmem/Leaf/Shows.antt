-- ===== src/Indexer/Inmem/Leaf/Shows.antt =====
-- The bytes of a leaf of qmdb/src/indexer/inmem.rs, from the list of its pairs.
use mathlib.Core.List.{append_assoc}
use qmdb.Common.{
  ℕ, ◌+◌, ◌*◌, ◌%◌, ◌^◌, ◌<◌, ◌≡◌, refl, ap, ap₂, sym, ◌-◌, ◌/◌, ◌∙◌, List, [], ◌∷◌, ◌++◌, some,
  length, length-append, arith,
}
use qmdb.Common.Bytes.{to_le_bytes, slice, slice_part}
use qmdb.Extern.Byteorder.{ByteOrder}
use qmdb.Indexer.Inmem.Leaf.{leaf_len, get}

-- A key and a value.
abbrev pub Pair : Type 0
Pair = ℕ × ℕ

abbrev pub pair_bytes : Pair → List ℕ
pair_bytes p = to_le_bytes 6 (p.0) ++ to_le_bytes 6 (p.1)

abbrev pub pairs_bytes : List Pair → List ℕ
pairs_bytes [] = []
pairs_bytes (p ∷ ps) = pair_bytes p ++ pairs_bytes ps

-- A leaf with these pairs and these bytes after them.
abbrev pub leaf_bytes : List Pair → List ℕ → List ℕ
leaf_bytes ps rest = to_le_bytes 2 (length ps) ++ (pairs_bytes ps ++ rest)

-- Keys and values fit their six bytes.
abbrev pub Fits : Pair → Type 0
Fits p = (p.0 < 2 ^ 48) × (p.1 < 2 ^ 48)

abbrev pub AllFit : List Pair → Type 0
AllFit [] = Unit {0}
AllFit (p ∷ ps) = Fits p × AllFit ps

pub length-pairs_bytes : (ps : List Pair) → length (pairs_bytes ps) ≡ length ps * 12
length-pairs_bytes [] = omega arith
length-pairs_bytes (p ∷ ps) =
    omega (arith, length-append (pair_bytes p) (pairs_bytes ps), length-pairs_bytes ps)

pub pairs_bytes-append :
    (ps qs : List Pair) → pairs_bytes (ps ++ qs) ≡ pairs_bytes ps ++ pairs_bytes qs
pairs_bytes-append [] qs = refl
pairs_bytes-append (p ∷ ps) qs =
    rw (pairs_bytes-append ps qs, append_assoc (pair_bytes p) (pairs_bytes ps) (pairs_bytes qs))
      refl

-- The bytes around one pair.
pub around :
    (before after : List Pair) (p : Pair) (rest : List ℕ) (n : ℕ)
    → to_le_bytes 2 n ++ (pairs_bytes (before ++ p ∷ after) ++ rest)
      ≡ (to_le_bytes 2 n ++ pairs_bytes before) ++ (pair_bytes p ++ (pairs_bytes after ++ rest))
around before after p rest n =
    rw
      (
        pairs_bytes-append before (p ∷ after),
        append_assoc (pairs_bytes before) (pairs_bytes (p ∷ after)) rest,
        append_assoc (pair_bytes p) (pairs_bytes after) rest,
      )
      refl

module _ (bo : ByteOrder) where
  pub leaf_len_lem :
      (ps : List Pair) (rest : List ℕ)
      → length ps < 2 ^ 16
      → leaf_len bo (leaf_bytes ps rest) ≡ some (length ps)
  unfolding leaf_len
  leaf_len_lem ps rest h =
      let there : slice (leaf_bytes ps rest) 0 2 ≡ some (to_le_bytes 2 (length ps)) =
        slice_part (leaf_bytes ps rest) [] (to_le_bytes 2 (length ps)) _ 0 2 refl refl
          (omega arith) in
      rw (there, bo.read_le-bytes (to_le_bytes 2 (length ps))) (ap some (omega arith))

  -- The pair after the first ones.
  pub get_lem :
      (before after : List Pair) (p : Pair) (rest : List ℕ)
      → Fits p
      → get bo (leaf_bytes (before ++ p ∷ after) rest) (length before) ≡ some p
  unfolding get
  get_lem before after p rest f =
      let n = length (before ++ p ∷ after) in
      let bytes = leaf_bytes (before ++ p ∷ after) rest in
      let front = to_le_bytes 2 n ++ pairs_bytes before in
      let behind = pairs_bytes after ++ rest in
      let k = p.0 in
      let v = p.1 in
      let low = to_le_bytes 6 k ++ to_le_bytes 2 v in
      let high = to_le_bytes 2 (k / 256 / 256 / 256 / 256) ++ to_le_bytes 6 v in
      let size : length front ≡ 2 + length before * 12 = omega (arith, length-pairs_bytes before) in
      let size' : length (front ++ to_le_bytes 4 k) ≡ 2 + length before * 12 + 4 =
        omega (arith, size, length-append front (to_le_bytes 4 k)) in
      let there = around before after p rest n in
      let there' = there ∙ sym (append_assoc front (to_le_bytes 4 k) (high ++ behind)) in
      let first : slice bytes (2 + length before * 12) (2 + length before * 12 + 8) ≡ some low =
        slice_part bytes front low (to_le_bytes 4 (v / 256 / 256) ++ behind) _ _ there size
          (omega arith) in
      let second : slice bytes (2 + length before * 12 + 12 - 8) (2 + length before * 12 + 12)
          ≡ some high =
        slice_part bytes (front ++ to_le_bytes 4 k) high behind _ _ there' (omega (arith, size'))
          (omega arith) in
      let key : bo.read_le low * 2 ^ 16 % 2 ^ 64 / 2 ^ 16 ≡ k =
        rw (bo.read_le-bytes low) (omega (arith, f.0, f.1)) in
      let value : bo.read_le high / 2 ^ 16 ≡ v =
        rw (bo.read_le-bytes high) (omega (arith, f.0, f.1)) in
      rw (first, second) (ap some (ap₂ (λ (a b : ℕ). (a, b)) key value))
