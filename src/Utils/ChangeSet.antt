-- ===== src/Utils/ChangeSet.antt =====
-- `ChangeSet` of qmdb/src/utils/changeset.rs. Bytes are numbers; the casts to narrower integers are
-- written out; `none` is a panic. A callback takes its state along. The record of an operation
-- (`OpRecord` of qmdb/src/utils/mod.rs) has here the fields that a change set reads. The sort of the
-- standard library is stable; it is an insertion sort here.
pub mod Visits
pub mod Order
pub mod Ordered
pub mod Returns
pub mod Shards
pub mod Sorted
use Prim.Native.Nat.{compare, Ordering}
use qmdb.Common.{
  ℕ, zero, suc, ◌+◌, ◌-◌, ◌*◌, ◌/◌, ◌%◌, ◌^◌, List, [], ◌∷◌, ◌++◌, Bool, true, false, Option, none,
  some, length, get_elem?, set, drop, replicate, leb, ltb, ◌==◌, if◌then◌else◌, ◌>>=◌, ◌>>◌, assert,
}
use qmdb.Common.Bytes.{slice}
use qmdb.Def.{shard_count}
use qmdb.Extern.Sha2.{Sha256}
use qmdb.Utils.Hasher.{Hash32, hash}

-- u32::MAX.
abbrev pub u32_max : ℕ
u32_max = 2 ^ 32 - 1

abbrev pub byte0_to_shard_id : ℕ → ℕ
byte0_to_shard_id byte0 = byte0 * shard_count / 256

pub record OpRecord : Type 0 where
  pub op_type : ℕ
  pub shard_id : ℕ
  pub key : List ℕ
  pub value : List ℕ

pub record ChangeOp : Type 0 where
  pub op_type : ℕ
  pub shard_id : ℕ
  pub old_value_len : ℕ
  pub key_start : ℕ
  pub value_start : ℕ
  pub key_hash_start : ℕ
  pub rec : Option OpRecord

pub record ChangeSet : Type 0 where
  pub bytes : List ℕ
  pub op_list : List ChangeOp
  pub shard_starts : List ℕ
  pub shard_op_count : List ℕ

-- The two constructors differ in the capacity of their vectors only.
abbrev pub new : ChangeSet
new = record {
  bytes = [];
  op_list = [];
  shard_starts = replicate shard_count u32_max;
  shard_op_count = replicate shard_count 0;
}

abbrev pub new_uninit : ChangeSet
new_uninit = new

unfoldable pub add_op_with_old_value :
    ℕ → ℕ → Hash32 → List ℕ → List ℕ → List ℕ → Option OpRecord → ChangeSet → ChangeSet
add_op_with_old_value op_type shard_id key_hash k v old_v rec cs =
    let key_start = length cs.bytes in
    let with_key = cs.bytes ++ k in
    let value_start = length with_key in
    let with_values = (with_key ++ v) ++ old_v in
    let key_hash_start = length with_values in
    record cs {
      bytes = with_values ++ key_hash;
      op_list =
          cs.op_list
          ++ record {
            op_type = op_type;
            shard_id = shard_id;
            old_value_len = length old_v % 2 ^ 16;
            key_start = key_start % 2 ^ 32;
            value_start = value_start % 2 ^ 32;
            key_hash_start = key_hash_start % 2 ^ 32;
            rec = rec;
          }
            ∷ [];
    }

unfoldable pub add_op : ℕ → ℕ → Hash32 → List ℕ → List ℕ → Option OpRecord → ChangeSet → ChangeSet
add_op op_type shard_id key_hash k v rec cs =
    let key_start = length cs.bytes in
    let with_key = cs.bytes ++ k in
    let value_start = length with_key in
    let with_value = with_key ++ v in
    let key_hash_start = length with_value in
    record cs {
      bytes = with_value ++ key_hash;
      op_list =
          cs.op_list
          ++ record {
            op_type = op_type;
            shard_id = shard_id;
            old_value_len = 0;
            key_start = key_start % 2 ^ 32;
            value_start = value_start % 2 ^ 32;
            key_hash_start = key_hash_start % 2 ^ 32;
            rec = rec;
          }
            ∷ [];
    }

module _ (sha : Sha256) where
  unfoldable pub add_op_rec : OpRecord → ChangeSet → Option ChangeSet
  unfolding add_op hash
  add_op_rec rec cs = do
    let key_hash = hash sha rec.key
    byte0 ← get_elem? key_hash 0
    let shard_id = byte0_to_shard_id byte0 % 256
    assert (shard_id == rec.shard_id % 256)
    some (add_op rec.op_type shard_id key_hash rec.key rec.value (some rec) cs)

-- The lexicographic order of byte strings.
abbrev pub bytes_cmp : List ℕ → List ℕ → Ordering
bytes_cmp [] [] = Ordering.eq
bytes_cmp [] (y ∷ ys) = Ordering.lt
bytes_cmp (x ∷ xs) [] = Ordering.gt
bytes_cmp (x ∷ xs) (y ∷ ys) =
    let rest = bytes_cmp xs ys in
    elim (compare x y) [
      | Ordering.eq ↦ rest
      | Ordering.lt ↦ Ordering.lt
      | Ordering.gt ↦ Ordering.gt
    ]

-- The comparison of `sort`: by shard, by key hash, by kind of operation.
pub compare_ops : List ℕ → ChangeOp → ChangeOp → Option Ordering
compare_ops bytes a b = elim (compare a.shard_id b.shard_id) [
  | Ordering.lt ↦ some Ordering.lt
  | Ordering.gt ↦ some Ordering.gt
  | Ordering.eq ↦ do
    x ← slice bytes a.key_hash_start (a.key_hash_start + 32)
    y ← slice bytes b.key_hash_start (b.key_hash_start + 32)
    some (elim (bytes_cmp x y) [
      | Ordering.lt ↦ Ordering.lt
      | Ordering.gt ↦ Ordering.gt
      | Ordering.eq ↦ compare a.op_type b.op_type
    ])
]

-- In front of the first that is not less.
pub insert_op : List ℕ → ChangeOp → List ChangeOp → Option (List ChangeOp)
unfolding compare_ops
insert_op bytes a [] = some (a ∷ [])
insert_op bytes a (b ∷ ops) = do
  r ← compare_ops bytes b a
  elim r [
    | Ordering.lt ↦ do rest ← insert_op bytes a ops; some (b ∷ rest)
    | Ordering.eq ↦ some (a ∷ b ∷ ops)
    | Ordering.gt ↦ some (a ∷ b ∷ ops)
  ]

pub sort_ops : List ℕ → List ChangeOp → Option (List ChangeOp)
unfolding insert_op
sort_ops bytes [] = some []
sort_ops bytes (a ∷ ops) = do sorted ← sort_ops bytes ops; insert_op bytes a sorted

-- The loop of `sort`, from an index on: where each shard starts, and how many operations it has.
pub mark : ℕ → List ChangeOp → List ℕ → List ℕ → Option (List ℕ × List ℕ)
mark idx [] starts counts = some (starts, counts)
mark idx (op ∷ ops) starts counts = do
  count ← get_elem? counts op.shard_id
  start ← get_elem? starts op.shard_id
  mark (idx + 1) ops (if start == u32_max then set starts op.shard_id (idx % 2 ^ 32) else starts)
      (set counts op.shard_id ((count + 1) % 2 ^ 32))

unfoldable pub sort : ChangeSet → Option ChangeSet
unfolding sort_ops mark
sort cs = do
  sorted ← sort_ops cs.bytes cs.op_list
  r ← mark 0 sorted cs.shard_starts cs.shard_op_count
  some (record cs { op_list = sorted; shard_starts = r.0; shard_op_count = r.1 })

-- `a - b` on `usize`.
abbrev pub sub_usize : ℕ → ℕ → Option ℕ
sub_usize a b = if leb b a then some (a - b) else none

-- What a callback is called with.
pub record Visit : Type 0 where
  pub op_type : ℕ
  pub key_hash : Hash32
  pub key : List ℕ
  pub value : List ℕ
  pub rec : Option OpRecord

pub visit_of : List ℕ → ChangeOp → Option Visit
visit_of bytes op = do
  key_hash ← slice bytes op.key_hash_start (op.key_hash_start + 32)
  key ← slice bytes op.key_start op.value_start
  old_start ← sub_usize op.key_hash_start op.old_value_len
  value ← slice bytes op.value_start old_start
  some
      (record { op_type = op.op_type; key_hash = key_hash; key = key; value = value; rec = op.rec })

-- The old value, which the callback of `apply_op_in_range` is given too.
pub old_value_of : List ℕ → ChangeOp → Option (List ℕ)
old_value_of bytes op = do
  old_value_start ← sub_usize op.key_hash_start op.old_value_len
  slice bytes old_value_start (old_value_start + op.old_value_len)

module _ {S : Type 0} (bytes : List ℕ) where
  pub apply_ops : (Visit → List ℕ → S → S) → List ChangeOp → S → Option S
  unfolding visit_of old_value_of
  apply_ops access [] s = some s
  apply_ops access (op ∷ ops) s = do
    v ← visit_of bytes op
    old_value ← old_value_of bytes op
    apply_ops access ops (access v old_value s)

  pub run_ops : (Visit → S → S) → List ChangeOp → S → Option S
  unfolding visit_of
  run_ops access [] s = some s
  run_ops access (op ∷ ops) s = do v ← visit_of bytes op; run_ops access ops (access v s)

  -- The loop of `run_in_shard`, over the operations that are left.
  pub run_while : ℕ → (Visit → S → S) → List ChangeOp → S → Option S
  unfolding visit_of
  run_while shard_id access [] s = some s
  run_while shard_id access (op ∷ ops) s = elim (shard_id == op.shard_id) [
    | true ↦ do v ← visit_of bytes op; run_while shard_id access ops (access v s)
    | false ↦ some s
  ]

module _ {S : Type 0} where
  unfoldable pub apply_op_in_range : (Visit → List ℕ → S → S) → ChangeSet → S → Option S
  unfolding apply_ops
  apply_op_in_range access cs s = apply_ops cs.bytes access cs.op_list s

  unfoldable pub run_all : (Visit → S → S) → ChangeSet → S → Option S
  unfolding run_ops
  run_all access cs s = run_ops cs.bytes access cs.op_list s

  unfoldable pub run_in_shard : ℕ → (Visit → S → S) → ChangeSet → S → Option S
  unfolding run_while
  run_in_shard shard_id access cs s = do
    shard_start ← get_elem? cs.shard_starts shard_id
    elim (shard_start == u32_max) [
      | true ↦ some s
      | false ↦ run_while cs.bytes shard_id access (drop shard_start cs.op_list) s
    ]

unfoldable pub op_count_in_shard : ChangeSet → ℕ → Option ℕ
op_count_in_shard cs shard_id = get_elem? cs.shard_op_count shard_id
