-- ===== src/Indexer/Inmem/BTree.antt =====
-- `BTreeMap` of the standard library with number keys, as far as qmdb/src/indexer/inmem.rs uses it:
-- the entries in the order of their keys.
use qmdb.Common.{ℕ, List, [], ◌∷◌, ◌&&◌, true, false, Option, none, some, ltb, leb, ◌==◌, Bool}

abbrev pub BTreeMap : Type 0
BTreeMap = List (ℕ × ℕ)

abbrev pub insert : BTreeMap → ℕ → ℕ → BTreeMap
insert [] k v = (k, v) ∷ []
insert ((j, w) ∷ m) k v =
    let later = (j, w) ∷ insert m k v in
    elim (ltb k j) [
      | true ↦ (k, v) ∷ (j, w) ∷ m
      | false ↦ elim (j == k) [ true ↦ (k, v) ∷ m | false ↦ later ]
    ]

abbrev pub remove : BTreeMap → ℕ → BTreeMap
remove [] k = []
remove ((j, w) ∷ m) k =
    let later = (j, w) ∷ remove m k in elim (j == k) [ true ↦ m | false ↦ later ]

-- The last of the entries whose keys pass a test: `range` with `next_back`.
abbrev pub last_of : (ℕ → Bool) → BTreeMap → Option (ℕ × ℕ)
last_of test [] = none
last_of test ((j, w) ∷ m) =
    let later = last_of test m in
    elim later [ some e ↦ some e | none ↦ elim (test j) [ true ↦ some (j, w) | false ↦ none ] ]

-- `range((Included(&lo), Included(&hi))).next_back()`.
abbrev pub last_upto : BTreeMap → ℕ → ℕ → Option (ℕ × ℕ)
last_upto m lo hi = last_of (λ j. leb lo j && leb j hi) m

-- `range((Included(&lo), Excluded(&hi))).next_back()`.
abbrev pub last_below : BTreeMap → ℕ → ℕ → Option (ℕ × ℕ)
last_below m lo hi = last_of (λ j. leb lo j && ltb j hi) m
