-- ===== src/Utils/ChangeSet/Visits.antt =====
-- qmdb/src/utils/changeset.rs: what the callbacks see of the operations that were added.
use mathlib.Core.List.{append-nil, append_assoc}
use qmdb.Common.{
  ℕ, ◌+◌, ◌%◌, ◌^◌, ◌<◌, ◌≡◌, refl, ap, ◌∙◌, List, [], ◌∷◌, ◌++◌, Option, some, length,
  length-append, >>=-eq-some, arith,
}
use qmdb.Common.Bytes.{slice, slice_longer, slice_part}
use qmdb.Utils.Hasher.{Hash32}
use qmdb.Utils.ChangeSet.{
  ChangeSet, ChangeOp, OpRecord, Visit, visit_of, old_value_of, apply_ops, run_ops, sub_usize,
  add_op_with_old_value, add_op, apply_op_in_range, run_all,
}

visit_of-longer :
    (bytes more : List ℕ) (op : ChangeOp) (v : Visit)
    → visit_of bytes op ≡ some v
    → visit_of (bytes ++ more) op ≡ some v
unfolding visit_of
visit_of-longer bytes more op v e =
    let (kh, e1, h1) = >>=-eq-some (slice bytes op.key_hash_start (op.key_hash_start + 32)) _ e in
    let (key, e2, h2) = >>=-eq-some (slice bytes op.key_start op.value_start) _ h1 in
    let (old, e3, h3) = >>=-eq-some (sub_usize op.key_hash_start op.old_value_len) _ h2 in
    let (value, e4, h4) = >>=-eq-some (slice bytes op.value_start old) _ h3 in
    rw
      (
        slice_longer bytes more _ _ e1,
        slice_longer bytes more _ _ e2,
        e3,
        slice_longer bytes more _ _ e4,
      )
      h4

old_value_of-longer :
    (bytes more : List ℕ) (op : ChangeOp) (v : List ℕ)
    → old_value_of bytes op ≡ some v
    → old_value_of (bytes ++ more) op ≡ some v
unfolding old_value_of
old_value_of-longer bytes more op v e =
    let (old, e1, h1) = >>=-eq-some (sub_usize op.key_hash_start op.old_value_len) _ e in
    rw e1 (slice_longer bytes more _ _ h1)

module _ {S : Type 0} (bytes more : List ℕ) where
  apply_ops-longer :
      (f : Visit → List ℕ → S → S) (ops last : List ChangeOp) (s s' : S)
      → apply_ops bytes f ops s ≡ some s'
      → apply_ops (bytes ++ more) f (ops ++ last) s ≡ apply_ops (bytes ++ more) f last s'
  unfolding apply_ops
  apply_ops-longer f [] last s s' e = ap (apply_ops (bytes ++ more) f last) (cc)
  apply_ops-longer f (op ∷ ops) last s s' e =
      let (v, e1, h1) = >>=-eq-some (visit_of bytes op) _ e in
      let (old, e2, h2) = >>=-eq-some (old_value_of bytes op) _ h1 in
      rw (apply_ops, visit_of-longer bytes more op v e1, old_value_of-longer bytes more op old e2)
        (apply_ops-longer f ops last (f v old s) s' h2)

  run_ops-longer :
      (f : Visit → S → S) (ops last : List ChangeOp) (s s' : S)
      → run_ops bytes f ops s ≡ some s'
      → run_ops (bytes ++ more) f (ops ++ last) s ≡ run_ops (bytes ++ more) f last s'
  unfolding run_ops
  run_ops-longer f [] last s s' e = ap (run_ops (bytes ++ more) f last) (cc)
  run_ops-longer f (op ∷ ops) last s s' e =
      let (v, e1, h1) = >>=-eq-some (visit_of bytes op) _ e in
      rw (run_ops, visit_of-longer bytes more op v e1) (run_ops-longer f ops last (f v s) s' h1)

abbrev joined : List ℕ → List ℕ → List ℕ → List ℕ → List ℕ → List ℕ
joined b k v old kh = (((b ++ k) ++ v) ++ old) ++ kh

-- An operation whose bytes lie one after the other.
module _ (b k v old kh : List ℕ) (op : ChangeOp) (key_at : op.key_start ≡ length b)
    (value_at : op.value_start ≡ length b + length k)
    (hash_at : op.key_hash_start ≡ length b + length k + length v + length old)
    (old_size : op.old_value_len ≡ length old) (hash_size : length kh ≡ 32) where
  abbrev whole : List ℕ
  whole = joined b k v old kh

  lengths :
      (length (b ++ k) ≡ length b + length k)
      × (length ((b ++ k) ++ v) ≡ length b + length k + length v)
      × (length (((b ++ k) ++ v) ++ old) ≡ length b + length k + length v + length old)
  lengths =
      omega (arith, length-append b k, length-append (b ++ k) v, length-append ((b ++ k) ++ v) old)

  added_hash : slice whole op.key_hash_start (op.key_hash_start + 32) ≡ some kh
  added_hash =
      slice_part whole (((b ++ k) ++ v) ++ old) kh [] _ _ (simp (append-nil))
        (omega (arith, lengths.2)) (omega (arith, hash_size))

  added_key : slice whole op.key_start op.value_start ≡ some k
  added_key =
      slice_part whole b k (v ++ (old ++ kh)) _ _ (simp append_assoc) (omega arith) (omega arith)

  added_old_start :
      sub_usize op.key_hash_start op.old_value_len ≡ some (length b + length k + length v)
  added_old_start = ground arith

  added_value : slice whole op.value_start (length b + length k + length v) ≡ some v
  added_value =
      slice_part whole (b ++ k) v (old ++ kh) _ _ (simp append_assoc) (omega (arith, lengths.0))
        (omega arith)

  visit_of-at :
      visit_of whole op
      ≡ some (record { op_type = op.op_type; key_hash = kh; key = k; value = v; rec = op.rec })
  unfolding visit_of
  visit_of-at = rw (added_hash, added_key, added_old_start, added_value) refl

  old_value_of-at : old_value_of whole op ≡ some old
  unfolding old_value_of
  old_value_of-at = rw added_old_start (
      slice_part whole ((b ++ k) ++ v) old kh _ _ (simp append_assoc) (omega (arith, lengths.1))
        (omega arith))

add_op-eq :
    (op_type shard_id : ℕ) (key_hash : Hash32) (k v : List ℕ) (rec : Option OpRecord)
    (cs : ChangeSet)
    → add_op op_type shard_id key_hash k v rec cs
      ≡ add_op_with_old_value op_type shard_id key_hash k v [] rec cs
unfolding add_op add_op_with_old_value
add_op-eq op_type shard_id key_hash k v rec cs = rw (append-nil ((cs.bytes ++ k) ++ v)) refl

module _ (cs : ChangeSet) (op_type shard_id : ℕ) (key_hash : Hash32) (k v old_v : List ℕ)
    (rec : Option OpRecord) (fits : length cs.bytes + length k + length v + length old_v < 2 ^ 32)
    (short : length old_v < 2 ^ 16) (hash_size : length key_hash ≡ 32) where
  abbrev more : List ℕ
  more = k ++ (v ++ (old_v ++ key_hash))

  abbrev added : ChangeOp
  added = record {
    op_type = op_type;
    shard_id = shard_id;
    old_value_len = length old_v % 2 ^ 16;
    key_start = length cs.bytes % 2 ^ 32;
    value_start = length (cs.bytes ++ k) % 2 ^ 32;
    key_hash_start = length (((cs.bytes ++ k) ++ v) ++ old_v) % 2 ^ 32;
    rec = rec;
  }

  abbrev pub visit : Visit
  visit = record { op_type = op_type; key_hash = key_hash; key = k; value = v; rec = rec }

  grown : cs.bytes ++ more ≡ joined cs.bytes k v old_v key_hash
  grown = simp append_assoc

  starts :
      (added.key_start ≡ length cs.bytes)
      × (added.value_start ≡ length cs.bytes + length k)
      × (added.key_hash_start ≡ length cs.bytes + length k + length v + length old_v)
      × (added.old_value_len ≡ length old_v)
  starts = omega (
    arith,
    length-append cs.bytes k,
    length-append (cs.bytes ++ k) v,
    length-append ((cs.bytes ++ k) ++ v) old_v,
  )

  new_visit : visit_of (cs.bytes ++ more) added ≡ some visit
  new_visit = rw grown (
      visit_of-at cs.bytes k v old_v key_hash added (starts.0) (starts.1) (starts.2) (starts.3)
        hash_size)

  new_old : old_value_of (cs.bytes ++ more) added ≡ some old_v
  new_old = rw grown (
      old_value_of-at cs.bytes k v old_v key_hash added (starts.0) (starts.1) (starts.2) (starts.3)
        hash_size)

  pub apply-added :
      {S : Type 0} (f : Visit → List ℕ → S → S) (s s' : S)
      → apply_op_in_range f cs s ≡ some s'
      → apply_op_in_range f (add_op_with_old_value op_type shard_id key_hash k v old_v rec cs) s
        ≡ some (f visit old_v s')
  unfolding apply_op_in_range add_op_with_old_value apply_ops
  apply-added f s s' e =
      let last : apply_ops (cs.bytes ++ more) f (added ∷ []) s' ≡ some (f visit old_v s') =
        rw (new_visit, new_old) refl in
      rw (← grown) (apply_ops-longer cs.bytes more f cs.op_list (added ∷ []) s s' e ∙ last)

  pub run_all-added :
      {S : Type 0} (g : Visit → S → S) (s s' : S)
      → run_all g cs s ≡ some s'
      → run_all g (add_op_with_old_value op_type shard_id key_hash k v old_v rec cs) s
        ≡ some (g visit s')
  unfolding run_all add_op_with_old_value run_ops
  run_all-added g s s' e =
      let last : run_ops (cs.bytes ++ more) g (added ∷ []) s' ≡ some (g visit s') =
        rw new_visit refl in
      rw (← grown) (run_ops-longer cs.bytes more g cs.op_list (added ∷ []) s s' e ∙ last)

  -- Adding an operation with an old value to a change set whose operations all have their bytes
  -- keeps what the callbacks see of those, and they then see the new one as it was given: its
  -- key hash, key and value, and its old value in `apply_op_in_range`. `add_op`
  -- does the same as with an empty old value. The bytes stay below 2^32, the old value below 2^16, and the
  -- key hash has 32 bytes.
  pub added_lem :
      {S : Type 0} (f : Visit → List ℕ → S → S) (g : Visit → S → S) (s s' t t' : S)
      → apply_op_in_range f cs s ≡ some s'
      → run_all g cs t ≡ some t'
      → let cs' = add_op_with_old_value op_type shard_id key_hash k v old_v rec cs in
        (apply_op_in_range f cs' s ≡ some (f visit old_v s'))
        × (run_all g cs' t ≡ some (g visit t'))
        × (add_op op_type shard_id key_hash k v rec cs
            ≡ add_op_with_old_value op_type shard_id key_hash k v [] rec cs)
  added_lem f g s s' t t' e1 e2 = (
    apply-added f s s' e1,
    run_all-added g t t' e2,
    add_op-eq op_type shard_id key_hash k v rec cs,
  )
