-- ===== src/Tests/Indexes.antt =====
-- A unit of qmdb/src/indexer/inmem.rs with one leaf, and runs from an empty unit.
use qmdb.Common.{
  ℕ, ◌+◌, ◌/◌, ◌%◌, ◌^◌, ◌≡◌, ◌⊎◌, refl, ◌>>=◌, List, [], ◌∷◌, ◌++◌, Option, some, none, Bool, true,
  false, replicate, arith,
}
use qmdb.Common.Bytes.{to_le_bytes}
use qmdb.Extern.Byteorder.{plain_order}
use qmdb.Indexer.Inmem.BufList.{BufList, get_leaf}
use qmdb.Indexer.Inmem.BufList.Room.{IsReady}
use qmdb.Indexer.Inmem.BufList.Alloc.{Allocated, allocate_lem}
use qmdb.Indexer.Inmem.Leaf as Leaf
use qmdb.Indexer.Inmem.Leaf.Shows.{Pair, leaf_bytes, AllFit}
use qmdb.Indexer.Inmem.Leaf.Sorted.{In, IsSorted}
use qmdb.Indexer.Inmem.Leaf.Edits.{Edited, edit_lem}
use qmdb.Indexer.Inmem.Unit.{IndexUnit, new, add_kv, erase_kv, change_kv, for_each_value}
use qmdb.Indexer.Inmem.Unit.Leaves.{LeafOf, flat}
use qmdb.Indexer.Inmem.Unit.Standing.{IsUnit}
use qmdb.Indexer.Inmem.Unit.Inserting.{Added}
use qmdb.Indexer.Inmem.Unit.Additions.{add_kv_lem}
use qmdb.Indexer.Inmem.Unit.Values.{values_of, until_stop, for_each_value_lem}
use qmdb.Def.{shard_div}
use qmdb.Indexer.Inmem.Generic as Generic
use qmdb.Indexer.Inmem.Generic.{InMemIndexer}
use qmdb.Indexer.Inmem.Generic.Laws.{Pairwise, unit_of, key_exists-add_kv}
use qmdb.Indexer.Inmem.Unit.Edits.{Erased, Changed, erase_kv_lem, change_kv_lem}

abbrev pairs : List Pair
pairs = (5, 7) ∷ (9, 8) ∷ []

pairs-AllFit : AllFit pairs
pairs-AllFit = ((omega arith, omega arith), ((omega arith, omega arith), tt))

pairs-IsSorted : IsSorted pairs
pairs-IsSorted = ((omega arith, tt), (tt, tt))

edit_lem_example :
    Edited plain_order pairs [] 9 8 pairs-AllFit (omega arith) pairs-IsSorted 3
    ⊎ ((In (9, 8) pairs → ⊥)
        × (Leaf.erase plain_order (leaf_bytes pairs []) 9 8 ≡ none)
        × (Leaf.change plain_order (leaf_bytes pairs []) 9 8 3 ≡ none))
edit_lem_example = edit_lem plain_order pairs [] 9 8 pairs-AllFit (omega arith) pairs-IsSorted 3

-- A buffer with the leaf, and twelve free bytes.
abbrev one_leaf : LeafOf
one_leaf = record { key = 2 ^ 48; pos = 0; cap = 2; pairs = pairs; free = [] }

abbrev buffers : BufList
buffers = record {
  list = (to_le_bytes 2 2 ++ (leaf_bytes pairs [] ++ replicate 12 0)) ∷ [];
  offset = 28;
}

buffers-IsReady : IsReady buffers
buffers-IsReady = record {
  last_buf = _;
  has_last = refl;
  inside = omega arith;
  short = omega arith;
}

allocate_lem_example : Allocated plain_order 1 buffers
allocate_lem_example =
    allocate_lem plain_order 1 buffers buffers-IsReady (omega arith) (omega arith)

abbrev one_unit : IndexUnit
one_unit = record {
  bt = (2 ^ 48, 0) ∷ [];
  buf_list = buffers;
  last_size = 0;
  change_count = 0;
  temp_vec = [];
}

one_unit-IsUnit : IsUnit one_unit (one_leaf ∷ [])
one_unit-IsUnit = record {
  tree = refl;
  ready = buffers-IsReady;
  stand = (
    record {
      slot = record { sized = refl; small = omega arith };
      holds = record { buf = _; there = refl; shows = refl };
      before = (omega arith, λ e. omega arith);
      filled = omega arith;
    },
    tt,
  );
  apart = (tt, tt);
  ordered = (
    omega arith,
    (
      2 ^ 56,
      record {
        key_below = omega arith;
        from_key = (omega arith, (omega arith, tt));
        all_below = (omega arith, (omega arith, tt));
        sorted = pairs-IsSorted;
        fits = pairs-AllFit;
      },
      omega arith,
    ),
  );
}

erase_kv_lem_example :
    Erased plain_order one_unit (one_leaf ∷ []) (2 ^ 48 + 5) 7
    ⊎ ((In (2 ^ 48 + 5, 7) (flat (one_leaf ∷ [])) → ⊥)
        × (erase_kv plain_order (2 ^ 48 + 5) 7 one_unit ≡ none))
erase_kv_lem_example =
    erase_kv_lem plain_order one_unit (one_leaf ∷ []) (2 ^ 48 + 5) 7 one_unit-IsUnit (omega arith)

change_kv_lem_example :
    Changed plain_order one_unit (one_leaf ∷ []) (2 ^ 48 + 5) 7 6
    ⊎ ((In (2 ^ 48 + 5, 7) (flat (one_leaf ∷ [])) → ⊥)
        × (change_kv plain_order (2 ^ 48 + 5) 7 6 one_unit ≡ none))
change_kv_lem_example =
    change_kv_lem plain_order one_unit (one_leaf ∷ []) (2 ^ 48 + 5) 7 6 one_unit-IsUnit
      (omega arith) (omega arith)

add_kv_lem_example : Added plain_order one_unit (one_leaf ∷ []) (2 ^ 48 + 7) 4
add_kv_lem_example =
    add_kv_lem plain_order one_unit (one_leaf ∷ []) (2 ^ 48 + 7) 4 one_unit-IsUnit (omega arith)
      (omega arith) (omega arith) (omega arith, tt)

-- An indexer with that unit alone.
abbrev one_index : InMemIndexer
one_index = record { units = one_unit ∷ []; sizes = 2 ∷ [] }

-- The key of ten bytes whose last eight but one are those of 2^48 + 7.
abbrev k80 : List ℕ
k80 = 0 ∷ 0 ∷ 1 ∷ 0 ∷ 0 ∷ 0 ∷ 0 ∷ 0 ∷ 7 ∷ 0 ∷ []

key_exists-add_kv_example :
    (ix' : InMemIndexer) × (lss' : List (List LeafOf)) × (size : ℕ) × (Generic.add_kv plain_order
        k80 32 0 one_index
      ≡ some ix')
    × Pairwise IsUnit ix'.units lss'
    × (Generic.len one_index
          (unit_of plain_order one_index k80 (omega arith) (omega arith) / shard_div)
        ≡ some size)
    × (Generic.len ix' (unit_of plain_order one_index k80 (omega arith) (omega arith) / shard_div)
        ≡ some ((size + 1) % 2 ^ 64))
    × (Generic.key_exists plain_order k80 32 1 ix' ≡ some true)
key_exists-add_kv_example =
    key_exists-add_kv plain_order one_index k80 (omega arith) (omega arith) ((one_leaf ∷ []) ∷ [])
      32 0 1 (one_unit-IsUnit, tt) ((omega arith, (omega arith, tt)), tt) (omega arith) refl
      (omega arith)

abbrev note : ℕ → List ℕ → List ℕ × Bool
note v seen = (v ∷ seen, false)

for_each_value_lem_example :
    for_each_value plain_order (2 ^ 48 + 5) note one_unit []
    ≡ some (until_stop note (values_of (2 ^ 48 + 5) (flat (one_leaf ∷ []))) [])
for_each_value_lem_example =
    for_each_value_lem plain_order note one_unit (one_leaf ∷ []) (2 ^ 48 + 5) [] one_unit-IsUnit
      (omega arith)

-- The values of a key, after pairs were added, changed and taken out.
abbrev values : Option (List ℕ)
unfolding add_kv erase_kv change_kv for_each_value new
values = do
  u1 ← add_kv plain_order 5 70 new
  u2 ← add_kv plain_order 3 71 u1
  u3 ← add_kv plain_order 5 72 u2
  u4 ← change_kv plain_order 5 70 73 u3
  u5 ← erase_kv plain_order 3 71 u4
  for_each_value plain_order 5 note u5 []

values_read : values ≡ some (73 ∷ 72 ∷ [])
unfolding add_kv erase_kv change_kv for_each_value new get_leaf Leaf.is_full Leaf.seek Leaf.change
    Leaf.erase
values_read = refl
