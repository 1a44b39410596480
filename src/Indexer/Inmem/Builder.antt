-- ===== src/Indexer/Inmem/Builder.antt =====
-- `UnitBuilder` and `Unit::compact` of qmdb/src/indexer/inmem.rs: all pairs are written again, into
-- leaves with little free space. `none` is a panic.
use qmdb.Common.{
  ℕ, zero, suc, ◌+◌, ◌-◌, ◌*◌, ◌/◌, ◌%◌, ◌^◌, List, [], ◌∷◌, ◌++◌, true, false, not, ◌&&◌, ◌||◌,
  Option, some, length, take, replicate, ltb, leb, min, ◌==◌, if◌then◌else◌, ◌>>=◌, bit_or,
}
use qmdb.Common.Bytes.{put, to_le_bytes}
use qmdb.Extern.Byteorder.{ByteOrder}
use qmdb.Indexer.Inmem.BTree as BTree
use qmdb.Indexer.Inmem.BTree.{BTreeMap}
use qmdb.Indexer.Inmem.Leaf as Leaf
use qmdb.Indexer.Inmem.Leaf.{kv_size}
use qmdb.Indexer.Inmem.BufList.{BufList, buf_size, get_leaf}
use qmdb.Indexer.Inmem.Unit.{IndexUnit, split_hi_lo}

abbrev pub default_leaf_cap : ℕ
default_leaf_cap = 32

abbrev pub extra_kv_pairs : ℕ
extra_kv_pairs = 2

abbrev pub default_leaf_len : ℕ
default_leaf_len = default_leaf_cap - extra_kv_pairs

abbrev pub u64_max : ℕ
u64_max = 2 ^ 64 - 1

pub record UnitBuilder : Type 0 where
  pub bt : BTreeMap
  pub buf_list : List (List ℕ)
  pub cur_buf : List ℕ
  pub cur_hi16 : ℕ
  pub key_for_leaf : ℕ
  pub leaf_start : ℕ
  pub leaf_size : ℕ
  pub last_key : ℕ
  pub size : ℕ
  pub total_bytes : ℕ

unfoldable pub new : UnitBuilder
new = record {
  bt = [];
  buf_list = [];
  cur_buf = replicate 4 0;
  cur_hi16 = u64_max;
  key_for_leaf = u64_max;
  leaf_start = 0;
  leaf_size = 0;
  last_key = u64_max;
  size = 0;
  total_bytes = 0;
}

abbrev pub extra_bytes : UnitBuilder → ℕ
extra_bytes b = min (b.leaf_size / 8) extra_kv_pairs * 12

-- Where the next leaf goes, after the current one was finished.
pub next_leaf : UnitBuilder → UnitBuilder
next_leaf b =
    let b' =
      if ltb buf_size (length b.cur_buf + kv_size)
      then record b {
        cur_buf = replicate 4 0;
        total_bytes = b.total_bytes + length b.cur_buf;
        buf_list = b.buf_list ++ b.cur_buf ∷ [];
        leaf_start = 0;
      }
      else record b { leaf_start = length b.cur_buf; cur_buf = b.cur_buf ++ replicate 4 0 } in
    record b' { leaf_size = 0; last_key = u64_max }

module _ (bo : ByteOrder) where
  pub flush : UnitBuilder → Option UnitBuilder
  unfolding next_leaf
  flush b = elim (b.leaf_size == 0) [
    | true ↦ some b
    | false ↦ do
      let buf = b.cur_buf ++ replicate (extra_bytes b) 0
      let cap = (length buf - b.leaf_start - 4) / kv_size
      buf1 ← put buf b.leaf_start (bo.write_le 2 (cap % 2 ^ 16))
      buf2 ← put buf1 (b.leaf_start + 2) (bo.write_le 2 (b.leaf_size % 2 ^ 16))
      let pos = bit_or (length b.buf_list * 2 ^ 32 % 2 ^ 64) b.leaf_start
      some (next_leaf (record b { cur_buf = buf2; bt = BTree.insert b.bt b.key_for_leaf pos }))
  ]

  -- A first pair with these high 16 bits starts a leaf.
  pub enter_hi16 : ℕ → UnitBuilder → Option UnitBuilder
  unfolding flush
  enter_hi16 hi16 b = elim (hi16 == b.cur_hi16) [
    | true ↦ some b
    | false ↦ do b' ← flush b; some (record b' { key_for_leaf = hi16; cur_hi16 = hi16 })
  ]

  -- So does a pair with a new key when the leaf is large enough.
  pub enter_key : ℕ → UnitBuilder → Option UnitBuilder
  unfolding flush
  enter_key k56 b =
      let ready =
        leb default_leaf_len b.leaf_size
        || leb buf_size (length b.cur_buf + extra_bytes b + kv_size) in
      elim (ready && not (b.last_key == k56)) [
        | true ↦ do b' ← flush b; some (record b' { key_for_leaf = k56 })
        | false ↦ some b
      ]

  pub append : ℕ → ℕ → UnitBuilder → Option UnitBuilder
  unfolding enter_hi16 enter_key
  append k56 v b = do
    b1 ← enter_hi16 (split_hi_lo k56).0 b
    b2 ← enter_key k56 b1
    some (record b2 {
      cur_buf = (b2.cur_buf ++ take 6 (to_le_bytes 8 k56)) ++ take 6 (to_le_bytes 8 v);
      size = b2.size + 1;
      leaf_size = b2.leaf_size + 1;
      last_key = k56;
    })

  -- The pairs of one leaf.
  pub append_leaf : ℕ → ℕ → ℕ → List ℕ → UnitBuilder → Option UnitBuilder
  unfolding append
  append_leaf zero i hi16 leaf b = some b
  append_leaf (suc rounds) i hi16 leaf b = do
    p ← Leaf.get bo leaf i
    b' ← append (bit_or hi16 (p.0)) (p.1) b
    append_leaf rounds (i + 1) hi16 leaf b'

  pub append_all : BTreeMap → BufList → UnitBuilder → Option UnitBuilder
  unfolding append_leaf
  append_all [] bl b = some b
  append_all ((k, pos) ∷ m) bl b = do
    leaf ← get_leaf bo bl pos
    n ← Leaf.leaf_len bo leaf
    b' ← append_leaf n 0 (split_hi_lo k).0 leaf b
    append_all m bl b'

  unfoldable pub compact : IndexUnit → Option IndexUnit
  unfolding append_all flush new
  compact u = do
    b1 ← append_all u.bt u.buf_list new
    b ← flush b1
    some (record u {
      bt = b.bt;
      buf_list = record { list = b.buf_list ++ b.cur_buf ∷ []; offset = length b.cur_buf };
      last_size = b.size % 2 ^ 32;
      change_count = 0;
    })
