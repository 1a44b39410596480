-- ===== src/Indexer/Inmem/Unit.antt =====
-- `Unit` of qmdb/src/indexer/inmem.rs: the keys of 56 bits that share their first 16 bits have their
-- leaves, each under its lowest possible key in a B-tree. Keys are numbers below 2^64; an `i64` value
-- is the number below 2^64 with the same bits; `none` is a panic. A callback takes its state along.
pub mod Leaves
pub mod Standing
pub mod Lookup
pub mod Rewriting
pub mod Pairs
pub mod Parts
pub mod Fresh
pub mod Adding
pub mod Cut
pub mod Inserting
pub mod Splitting
pub mod Alone
pub mod Halves
pub mod Additions
pub mod Values
pub mod Edits
use qmdb.Common.{
  ℕ, zero, suc, ◌+◌, ◌-◌, ◌*◌, ◌/◌, ◌%◌, ◌^◌, List, [], ◌∷◌, ◌++◌, Bool, true, false, Option, none,
  some, length, take, drop, ltb, leb, min, max, ◌==◌, if◌then◌else◌, ◌>>=◌,
}
use qmdb.Common.Bytes.{slice, put, to_le_bytes, to_be_bytes}
use qmdb.Extern.Byteorder.{ByteOrder}
use qmdb.Indexer.Inmem.BTree as BTree
use qmdb.Indexer.Inmem.BTree.{BTreeMap, last_upto, last_below}
use qmdb.Indexer.Inmem.Leaf as Leaf
use qmdb.Indexer.Inmem.Leaf.{kv_size}
use qmdb.Indexer.Inmem.BufList as BufList
use qmdb.Indexer.Inmem.BufList.{BufList, allocate, get_leaf, put_leaf, create_leaf, leaf_init_cap}

abbrev pub compact_ratio : ℕ
compact_ratio = 20

abbrev pub compact_thres : ℕ
compact_thres = 500

pub record IndexUnit : Type 0 where
  pub bt : BTreeMap
  pub buf_list : BufList
  pub last_size : ℕ
  pub change_count : ℕ
  pub temp_vec : List ℕ

unfoldable pub new : IndexUnit
unfolding BufList.new
new = record { bt = []; buf_list = BufList.new; last_size = 0; change_count = 0; temp_vec = [] }

abbrev pub split_hi_lo : ℕ → ℕ × ℕ
split_hi_lo k = (k / 2 ^ 48 * 2 ^ 48 % 2 ^ 64, k * 2 ^ 16 % 2 ^ 64 / 2 ^ 16)

-- `+=` on a `u32`.
abbrev pub counted : IndexUnit → ℕ → IndexUnit
counted u n = record u { change_count = (u.change_count + n % 2 ^ 32) % 2 ^ 32 }

unfoldable pub is_compactible : IndexUnit → Bool
is_compactible u = ltb (max u.last_size compact_thres) (u.change_count * compact_ratio % 2 ^ 32)

-- The leaf after a call that changed it.
abbrev pub with_leaf : IndexUnit → ℕ → List ℕ → Option IndexUnit
with_leaf u pos leaf = do bl ← put_leaf u.buf_list pos leaf; some (record u { buf_list = bl })

-- The leaf below which a key belongs: its key and its position.
abbrev pub leaf_for : IndexUnit → ℕ → Option (ℕ × ℕ)
leaf_for u k = last_upto u.bt (split_hi_lo k).0 k

module _ (bo : ByteOrder) where
  -- A leaf of its own for the pair.
  pub add_leaf : ℕ → ℕ → ℕ → IndexUnit → Option IndexUnit
  unfolding create_leaf
  add_leaf leaf_key k v u = do
    c ← create_leaf bo k v u.buf_list
    some
        (counted (record u { bt = BTree.insert u.bt leaf_key (c.0); buf_list = c.1 }) leaf_init_cap)

  -- The split of a full leaf: its last `count` pairs, those from `idx` on, move into a new leaf,
  -- behind the new pair.
  pub move_pairs : ℕ → ℕ → ℕ → ℕ → ℕ → ℕ × ℕ → List ℕ → IndexUnit → Option IndexUnit
  unfolding allocate put_leaf
  move_pairs count idx k56 k v at leaf u = do
    let start = 2 + kv_size * idx
    tail ← slice leaf start (start + 12 * count)
    leaf' ← put leaf 0 (bo.write_le 2 (idx % 2 ^ 16))
    bl ← put_leaf u.buf_list (at.1) leaf'
    let alloc_count = 1 + count + min (count / 4) 2
    a ← allocate bo alloc_count bl
    bz ← Leaf.split_bytes bo (a.1) count k v tail
    bl' ← put_leaf (a.2) (a.0) bz
    let u' = record u { buf_list = bl'; temp_vec = tail }
    some (
        if idx == 0
        then record (counted u' (alloc_count - count)) { bt = BTree.insert u.bt (at.0) (a.0) }
        else record (counted u' alloc_count) { bt = BTree.insert u.bt k56 (a.0) })

  pub split_leaf : ℕ → ℕ → ℕ → ℕ → ℕ × ℕ → List ℕ → IndexUnit → Option IndexUnit
  unfolding move_pairs
  split_leaf idx k56 k v at leaf u = do
    n ← Leaf.leaf_len bo leaf
    move_pairs (n - idx) idx k56 k v at leaf u

  -- What happens at the leaf below which the key belongs.
  pub add_at : ℕ → ℕ → ℕ → ℕ × ℕ → IndexUnit → Option IndexUnit
  unfolding add_leaf split_leaf put_leaf
  add_at k56 k v at u = do
    leaf ← get_leaf bo u.buf_list (at.1)
    is_full ← Leaf.is_full bo leaf
    found ← Leaf.seek bo leaf k
    elim found [
      | some idx ↦ elim is_full [
        | true ↦ split_leaf idx k56 k v at leaf u
        | false ↦ do leaf' ← Leaf.insert bo leaf idx k v; with_leaf u (at.1) leaf'
      ]
      | none ↦ elim is_full [
        | true ↦ add_leaf k56 k v u
        | false ↦ do
          leaf' ← Leaf.append bo leaf k v
          u' ← with_leaf u (at.1) leaf'
          some (counted u' 1)
      ]
    ]

  unfoldable pub add_kv : ℕ → ℕ → IndexUnit → Option IndexUnit
  unfolding add_leaf add_at
  add_kv k56 v u = elim (leaf_for u k56) [
    | none ↦ add_leaf (split_hi_lo k56).0 (split_hi_lo k56).1 v u
    | some at ↦ add_at k56 (split_hi_lo k56).1 v at u
  ]

  unfoldable pub erase_kv : ℕ → ℕ → IndexUnit → Option IndexUnit
  unfolding put_leaf
  erase_kv k v u0 = do
    let u = counted u0 1
    at ← leaf_for u k
    leaf ← get_leaf bo u.buf_list (at.1)
    leaf' ← Leaf.erase bo leaf (split_hi_lo k).1 v
    u' ← with_leaf u (at.1) leaf'
    n ← Leaf.leaf_len bo leaf'
    some (if n == 0 then record u' { bt = BTree.remove u'.bt (at.0) } else u')

  unfoldable pub change_kv : ℕ → ℕ → ℕ → IndexUnit → Option IndexUnit
  unfolding put_leaf
  change_kv k v_old v_new u0 = do
    let u = counted u0 1
    at ← leaf_for u k
    leaf ← get_leaf bo u.buf_list (at.1)
    leaf' ← Leaf.change bo leaf (split_hi_lo k).1 v_old v_new
    with_leaf u (at.1) leaf'

  module _ {A : Type 0} where
    -- The loop of `for_each_value`: the rounds left, and the index.
    pub values_from : ℕ → ℕ → List ℕ → ℕ → (ℕ → A → A × Bool) → A → Option A
    values_from zero i leaf lo48 access a = some a
    values_from (suc rounds) i leaf lo48 access a = do
      p ← Leaf.get bo leaf i
      elim (ltb (p.0) lo48) [
        | true ↦ values_from rounds (i + 1) leaf lo48 access a
        | false ↦ elim (p.0 == lo48) [
          | true ↦ elim ((access (p.1) a).1) [
            | true ↦ some (access (p.1) a).0
            | false ↦ values_from rounds (i + 1) leaf lo48 access (access (p.1) a).0
          ]
          | false ↦ some a
        ]
      ]

    unfoldable pub for_each_value : ℕ → (ℕ → A → A × Bool) → IndexUnit → A → Option A
    unfolding values_from
    for_each_value k56 access u a = elim (leaf_for u k56) [
      | none ↦ some a
      | some at ↦ do
        leaf ← get_leaf bo u.buf_list (at.1)
        n ← Leaf.leaf_len bo leaf
        values_from n 0 leaf (split_hi_lo k56).1 access a
    ]
