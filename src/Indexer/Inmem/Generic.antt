-- ===== src/Indexer/Inmem/Generic.antt =====
-- `InMemIndexerGeneric` of qmdb/src/indexer/inmem.rs over `Unit`: 65536 units, each with the keys
-- that share their first two bytes. A lock is held for one call; `none` is a panic. File positions
-- are not negative.
pub mod Laws
use qmdb.Common.{
  ℕ, ◌+◌, ◌-◌, ◌*◌, ◌/◌, ◌%◌, ◌^◌, List, Bool, true, false, ◌||◌, Option, some, length, get_elem?,
  set, replicate, ◌==◌, ◌>>=◌, ◌>>◌, assert, not, ◌++◌, [], ◌∷◌,
}
use qmdb.Common.Bytes.{slice}
use qmdb.Def.{shard_count, shard_div}
use qmdb.Extern.Byteorder.{ByteOrder}
use qmdb.Indexer.Inmem.Unit as Unit56
use qmdb.Indexer.Inmem.Unit.{IndexUnit}
use qmdb.Indexer.Inmem.Adjacent as Adjacent
use qmdb.Indexer.Inmem.Builder as Builder

-- OP_READ, OP_WRITE, OP_CREATE and OP_DELETE.
pub data OpType : Type 0 where
  op_read : OpType
  op_write : OpType
  op_create : OpType
  op_delete : OpType

pub record InMemIndexer : Type 0 where
  pub units : List IndexUnit
  pub sizes : List ℕ

unfoldable pub new : ℕ → InMemIndexer
unfolding Unit56.new
new n = record { units = replicate n Unit56.new; sizes = replicate shard_count 0 }

unfoldable pub len : InMemIndexer → ℕ → Option ℕ
len ix shard_id = get_elem? ix.sizes shard_id

-- A change of one unit, and of the size of its shard.
abbrev pub update :
    (IndexUnit → Option IndexUnit) → (ℕ → ℕ) → ℕ → InMemIndexer → Option InMemIndexer
update f g idx ix = do
  unit ← get_elem? ix.units idx
  unit' ← f unit
  size ← get_elem? ix.sizes (idx / shard_div)
  some (record { units = set ix.units idx unit'; sizes = set ix.sizes (idx / shard_div) (g size) })

module _ (bo : ByteOrder) where
  -- The unit, the key of 56 bits and the value of a call.
  pub get_inputs : InMemIndexer → List ℕ → ℕ → Option (ℕ × ℕ × ℕ)
  get_inputs ix k80 v = do
    first ← slice k80 0 2
    key ← slice k80 1 9
    assert (v % 8 == 0)
    assert (not (length ix.units == 0))
    some (bo.read_be first % length ix.units, bo.read_be key * 2 ^ 8 % 2 ^ 64 / 2 ^ 8, v / 8)

  unfoldable pub add_kv : List ℕ → ℕ → ℕ → InMemIndexer → Option InMemIndexer
  unfolding get_inputs Unit56.add_kv
  add_kv k80 v sn ix = do
    i ← get_inputs ix k80 v
    update (Unit56.add_kv bo (i.1) (i.2)) (λ size. (size + 1) % 2 ^ 64) (i.0) ix

  unfoldable pub erase_kv : List ℕ → ℕ → ℕ → InMemIndexer → Option InMemIndexer
  unfolding get_inputs Unit56.erase_kv
  erase_kv k80 v sn ix = do
    i ← get_inputs ix k80 v
    update (Unit56.erase_kv bo (i.1) (i.2)) (λ size. (size + 2 ^ 64 - 1) % 2 ^ 64) (i.0) ix

  unfoldable pub change_kv : List ℕ → ℕ → ℕ → ℕ → ℕ → InMemIndexer → Option InMemIndexer
  unfolding get_inputs Unit56.change_kv
  change_kv k80 v_old v_new sn_old sn_new ix = do
    i ← get_inputs ix k80 v_old
    assert (v_new % 8 == 0)
    unit ← get_elem? ix.units (i.0)
    unit' ← Unit56.change_kv bo (i.1) (i.2) (v_new / 8) unit
    some (record ix { units = set ix.units (i.0) unit' })

  module _ {A : Type 0} where
    unfoldable pub for_each_value : ℕ → List ℕ → (ℕ → A → A × Bool) → InMemIndexer → A → Option A
    unfolding get_inputs Unit56.for_each_value
    for_each_value h k80 access ix a = do
      i ← get_inputs ix k80 0
      unit ← get_elem? ix.units (i.0)
      Unit56.for_each_value bo (i.1) (λ v. access (v * 8)) unit a

    unfoldable pub for_each_adjacent_value :
        ℕ → List ℕ → (List ℕ → ℕ → A → A × Bool) → InMemIndexer → A → Option A
    unfolding get_inputs Adjacent.for_each_adjacent_value
    for_each_adjacent_value h k80 access ix a = do
      i ← get_inputs ix k80 0
      unit ← get_elem? ix.units (i.0)
      buf ← slice k80 0 9
      Adjacent.for_each_adjacent_value bo (λ k v. access k (v * 8)) (buf ++ 0 ∷ []) (i.1) unit a

    unfoldable pub for_each :
        ℕ → OpType → List ℕ → (List ℕ → ℕ → A → A × Bool) → InMemIndexer → A → Option A
    unfolding for_each_adjacent_value for_each_value
    for_each h op_create k80 access ix a = for_each_adjacent_value h k80 access ix a
    for_each h op_delete k80 access ix a = for_each_adjacent_value h k80 access ix a
    for_each h op_write k80 access ix a = for_each_value h k80 (access k80) ix a
    for_each h op_read k80 access ix a = for_each_value h k80 (access k80) ix a

  unfoldable pub key_exists : List ℕ → ℕ → ℕ → InMemIndexer → Option Bool
  unfolding for_each_value
  key_exists k80 file_pos sn ix =
      for_each_value 0 k80 (λ offset exists. (exists || offset == file_pos, false)) ix false

  -- A round of the compacting thread at one unit.
  unfoldable pub compact_unit : ℕ → InMemIndexer → Option InMemIndexer
  unfolding Unit56.is_compactible Builder.compact
  compact_unit i ix = do
    unit ← get_elem? ix.units i
    elim (Unit56.is_compactible unit) [
      | true ↦ do unit' ← Builder.compact bo unit; some (record ix { units = set ix.units i unit' })
      | false ↦ some ix
    ]
