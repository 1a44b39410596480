-- ===== src/Utils/ChangeSet/Returns.antt =====
-- qmdb/src/utils/changeset.rs: the sort of operations that have their bytes does not panic.
use Prim.Native.Nat.{compare, Ordering}
use qmdb.Common.{
  ℕ, suc, ◌+◌, ◌%◌, ◌^◌, ◌<◌, ◌≡◌, refl, ap, ◌∙◌, List, [], ◌∷◌, some, length, set, length-set,
  get_elem?-eq-get_or, get_or, Option-cases, inl, inr, ◌==◌, if◌then◌else◌, arith,
}
use qmdb.Common.Bytes.{slice}
use qmdb.Def.{shard_count}
use qmdb.Utils.ChangeSet.{ChangeOp, compare_ops, insert_op, sort_ops, mark, u32_max}

module _ (bytes : List ℕ) where
  -- An operation of one of the shards, whose key hash is there.
  pub record IsUsable (op : ChangeOp) : Type 0 where
    pub in_shard : op.shard_id < shard_count
    pub key_hash : List ℕ
    pub has_hash : slice bytes op.key_hash_start (op.key_hash_start + 32) ≡ some key_hash

  abbrev pub AllUsable : List ChangeOp → Type 0
  AllUsable [] = Unit {0}
  AllUsable (op ∷ ops) = IsUsable op × AllUsable ops

  compare_ops-returns :
      (a b : ChangeOp) → IsUsable a → IsUsable b → (r : Ordering) × (compare_ops bytes a b ≡ some r)
  unfolding compare_ops
  compare_ops-returns a b ua ub = split (compare a.shard_id b.shard_id) refl
    where
      split :
          (o : Ordering)
          → compare a.shard_id b.shard_id ≡ o
          → (r : Ordering) × (compare_ops bytes a b ≡ some r)
      split Ordering.lt e = (Ordering.lt, rw (compare_ops, e) refl)
      split Ordering.gt e = (Ordering.gt, rw (compare_ops, e) refl)
      split Ordering.eq e = elim (Option-cases (compare_ops bytes a b)) [
        | inl n ↦ absurd (cc (rw (compare_ops, e, ua.has_hash, ub.has_hash) at n))
        | inr r ↦ r
      ]

  insert_op-returns :
      (a : ChangeOp) (ops : List ChangeOp)
      → IsUsable a
      → AllUsable ops
      → (out : List ChangeOp) × (insert_op bytes a ops ≡ some out)
        × AllUsable out
        × (length out ≡ suc (length ops))
  unfolding insert_op
  insert_op-returns a [] u us = (a ∷ [], refl, (u, tt), refl)
  insert_op-returns a (b ∷ ops) u us =
      let (r, e) = compare_ops-returns b a (us.0) u in
      by_case r e (insert_op-returns a ops u (us.1))
    where
      by_case :
          (r : Ordering)
          → compare_ops bytes b a ≡ some r
          → ((out : List ChangeOp) × (insert_op bytes a ops ≡ some out)
              × AllUsable out
              × (length out ≡ suc (length ops)))
          → (out : List ChangeOp) × (insert_op bytes a (b ∷ ops) ≡ some out)
            × AllUsable out
            × (length out ≡ suc (length (b ∷ ops)))
      by_case Ordering.lt e (out, runs, all, size) =
          (b ∷ out, rw (insert_op, e, runs) refl, (us.0, all), ap suc size)
      by_case Ordering.eq e ih = (a ∷ b ∷ ops, rw (insert_op, e) refl, (u, us), refl)
      by_case Ordering.gt e ih = (a ∷ b ∷ ops, rw (insert_op, e) refl, (u, us), refl)

  pub sort_ops-returns :
      (ops : List ChangeOp)
      → AllUsable ops
      → (out : List ChangeOp) × (sort_ops bytes ops ≡ some out)
        × AllUsable out
        × (length out ≡ length ops)
  unfolding sort_ops
  sort_ops-returns [] us = ([], refl, tt, refl)
  sort_ops-returns (a ∷ ops) us =
      let (sorted, e, all, size) = sort_ops-returns ops (us.1) in
      let (out, e1, all1, size1) = insert_op-returns a sorted (us.0) all in
      (out, rw (sort_ops, e) e1, all1, size1 ∙ ap suc size)

  pub mark-returns :
      (idx : ℕ) (ops : List ChangeOp) (starts counts : List ℕ)
      → AllUsable ops
      → length starts ≡ shard_count
      → length counts ≡ shard_count
      → (r : List ℕ × List ℕ) × (mark idx ops starts counts ≡ some r)
  unfolding mark
  mark-returns idx [] starts counts us hs hc = ((starts, counts), refl)
  mark-returns idx (op ∷ ops) starts counts us hs hc =
      let inside = us.0.in_shard in
      let count = get_or counts op.shard_id 0 in
      let start = get_or starts op.shard_id 0 in
      let e1 = get_elem?-eq-get_or counts op.shard_id 0 (omega (arith, inside)) in
      let e2 = get_elem?-eq-get_or starts op.shard_id 0 (omega (arith, inside)) in
      let starts1 = if start == u32_max then set starts op.shard_id (idx % 2 ^ 32) else starts in
      let counts1 = set counts op.shard_id ((count + 1) % 2 ^ 32) in
      let same : length starts1 ≡ shard_count =
        ground (arith, length-set starts op.shard_id (idx % 2 ^ 32)) in
      let (r, e) =
        mark-returns (idx + 1) ops starts1 counts1 (us.1) same
          (length-set counts op.shard_id ((count + 1) % 2 ^ 32) ∙ hc) in
      (r, rw (mark, e1, e2) e)
