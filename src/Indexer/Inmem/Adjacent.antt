-- ===== src/Indexer/Inmem/Adjacent.antt =====
-- `Unit::for_each_adjacent_value` of qmdb/src/indexer/inmem.rs: the pairs with the key, and then
-- those with the largest key below it. A callback takes its state along; `none` is a panic.
use qmdb.Common.{
  ℕ, zero, suc, ◌+◌, ◌/◌, ◌%◌, ◌^◌, List, Bool, true, false, Option, none, some, drop, set, ltb,
  ◌==◌, if◌then◌else◌, ◌>>=◌,
}
use qmdb.Common.Bytes.{put, to_be_bytes}
use qmdb.Extern.Byteorder.{ByteOrder}
use qmdb.Indexer.Inmem.BTree.{last_below}
use qmdb.Indexer.Inmem.Leaf as Leaf
use qmdb.Indexer.Inmem.BufList.{get_leaf}
use qmdb.Indexer.Inmem.Unit.{IndexUnit, leaf_for, split_hi_lo}

module _ (bo : ByteOrder) {A : Type 0} (access : List ℕ → ℕ → A → A × Bool) where
  -- The first loop: the rounds left, the index, and the place of the key once it is known.
  pub scan : ℕ → ℕ → ℕ → List ℕ → List ℕ → ℕ → ℕ → A → Option (ℕ × A)
  scan zero i end leaf k80 lo48 idx a = some (idx, a)
  scan (suc rounds) i end leaf k80 lo48 idx a = do
    p ← Leaf.get bo leaf i
    let idx' = if idx == end then i else idx
    elim (ltb (p.0) lo48) [
      | true ↦ scan rounds (i + 1) end leaf k80 lo48 idx a
      | false ↦ elim (p.0 == lo48) [
        | true ↦ elim (access k80 (p.1) a).1 [
          | true ↦ some (idx', (access k80 (p.1) a).0)
          | false ↦ scan rounds (i + 1) end leaf k80 lo48 idx' (access k80 (p.1) a).0
        ]
        | false ↦ some (idx', a)
      ]
    ]

  -- The second loop, backwards from an index.
  pub walk : ℕ → List ℕ → List ℕ → ℕ → A → Option A
  walk zero leaf k80 k_prev a = do
    p ← Leaf.get bo leaf 0
    elim (p.0 == k_prev) [ true ↦ some (access k80 (p.1) a).0 | false ↦ some a ]
  walk (suc idx) leaf k80 k_prev a = do
    p ← Leaf.get bo leaf (suc idx)
    elim (p.0 == k_prev) [
      | true ↦ elim (access k80 (p.1) a).1 [
        | true ↦ some (access k80 (p.1) a).0
        | false ↦ walk idx leaf k80 k_prev (access k80 (p.1) a).0
      ]
      | false ↦ some a
    ]

  -- From the index behind the previous key on.
  pub walk_back : ℕ → List ℕ → List ℕ → A → Option A
  unfolding walk
  walk_back zero leaf k80 a = none
  walk_back (suc idx) leaf k80 a = do
    p ← Leaf.get bo leaf idx
    k80' ← put k80 3 (drop 2 (to_be_bytes 8 (p.0)))
    walk idx leaf k80' (p.0) a

  -- The key is the first of its leaf, or has none: the previous leaf, if any.
  pub walk_prev_leaf : ℕ → List ℕ → IndexUnit → A → Option A
  unfolding walk_back
  walk_prev_leaf cur_key k80 u a = elim (cur_key == 0) [
    | true ↦ some a
    | false ↦ elim (last_below u.bt 0 cur_key) [
      | none ↦ some a
      | some prev ↦ do
        leaf ← get_leaf bo u.buf_list (prev.1)
        n ← Leaf.leaf_len bo leaf
        walk_back n leaf (set k80 2 ((prev.0) / 2 ^ 48 % 256)) a
    ]
  ]

  unfoldable pub for_each_adjacent_value : List ℕ → ℕ → IndexUnit → A → Option A
  unfolding scan walk_back walk_prev_leaf
  for_each_adjacent_value k80 k56 u a = elim (leaf_for u k56) [
    | none ↦ walk_prev_leaf k56 k80 u a
    | some at ↦ do
      leaf ← get_leaf bo u.buf_list (at.1)
      n ← Leaf.leaf_len bo leaf
      r ← scan n 0 n leaf k80 (split_hi_lo k56).1 n a
      elim (r.0 == 0) [
        | true ↦ walk_prev_leaf (at.0) k80 u (r.1)
        | false ↦ walk_back (r.0) leaf k80 (r.1)
      ]
  ]
