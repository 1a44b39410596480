-- ===== src/Utils/ChangeSet/Sorted.antt =====
-- qmdb/src/utils/changeset.rs: what `sort` prepares, and what `run_in_shard` then runs.
use mathlib.Core.List.{Perm}
use qmdb.Common.{
  ℕ, ◌-◌, ◌<◌, ◌≡◌, refl, ap, ◌∙◌, some, length, get_elem?, get_elem?-eq-get_or, get_or-replicate,
  length-replicate, replicate, drop, ◌==◌, ==_iff, Bool-cases, inl, inr, arith, ◌>>=◌,
}
use qmdb.Def.{shard_count}
use qmdb.Utils.ChangeSet.{
  ChangeSet, Visit, run_ops, run_while, sort, run_in_shard, op_count_in_shard, u32_max,
}
use qmdb.Utils.ChangeSet.Order.{IsSorted, sort_ops-IsSorted}
use qmdb.Utils.ChangeSet.Ordered.{IsOrdered, IsSorted-IsOrdered}
use qmdb.Utils.ChangeSet.Returns.{AllUsable, sort_ops-returns, mark-returns}
use qmdb.Utils.ChangeSet.Shards.{of_shard, start_of, mark_lem, drop_start, run_skip}

get_elem?-replicate : (n i v : ℕ) → i < n → get_elem? (replicate n v) i ≡ some v
get_elem?-replicate n i v h =
    get_elem?-eq-get_or (replicate n v) i v (omega (arith, length-replicate n v))
    ∙ ap some (get_or-replicate n i v)

-- The run of a shard from its start.
run_from_start :
    {S : Type 0} (cs : ChangeSet) (g : Visit → S → S) (shard_id : ℕ) (s : S)
    → IsSorted cs.bytes cs.op_list
    → length cs.op_list < u32_max
    → get_elem? cs.shard_starts shard_id ≡ some (start_of shard_id 0 cs.op_list)
    → run_in_shard shard_id g cs s ≡ run_ops cs.bytes g (of_shard shard_id cs.op_list) s
unfolding run_in_shard run_ops run_while
run_from_start cs g shard_id s o h e =
    let start = start_of shard_id 0 cs.op_list in
    let (absent, present) = drop_start shard_id 0 cs.op_list (omega (arith, h)) in
    elim (Bool-cases (start == u32_max)) [
      | inl t ↦ rw (run_in_shard, e, ◌>>=◌, t, absent ((==_iff start u32_max).0 t)) refl
      | inr t ↦
          let (low, rest) = present (λ q. cc ((==_iff start u32_max).1 q)) in
          let from : start ≡ start - 0 = omega arith in
          let there = ap (λ (n : ℕ). drop n cs.op_list) from ∙ rest in
          rw (run_in_shard, e, ◌>>=◌, t, there) (run_skip cs.bytes g shard_id cs.op_list s o)
    ]

module _ (cs : ChangeSet) (usable : AllUsable cs.bytes cs.op_list)
    (fresh_starts : cs.shard_starts ≡ replicate shard_count u32_max)
    (fresh_counts : cs.shard_op_count ≡ replicate shard_count 0)
    (fits : length cs.op_list < u32_max) where
  -- A sort of a change set that was not sorted before, with fewer than 2^32 - 1 operations, all of
  -- which have shards and the bytes of their key hashes, returns. It keeps the bytes and the
  -- operations, and puts the operations in ascending order of the shard, those of one shard in that
  -- of the bytes of the key hash, and those of one key hash in that of the kind. It counts those of
  -- each shard; `run_in_shard` then calls its callback for the operations of the shard, all of them
  -- and no other, in that order.
  pub sort_lem :
      {S : Type 0} (shard_id : ℕ) (g : Visit → S → S) (s : S)
      → shard_id < shard_count
      → (cs' : ChangeSet) × (sort cs ≡ some cs')
        × (cs'.bytes ≡ cs.bytes)
        × Perm cs.op_list cs'.op_list
        × IsOrdered cs.bytes cs'.op_list
        × (op_count_in_shard cs' shard_id ≡ some (length (of_shard shard_id cs'.op_list)))
        × (run_in_shard shard_id g cs' s ≡ run_ops cs.bytes g (of_shard shard_id cs'.op_list) s)
  unfolding sort op_count_in_shard
  sort_lem shard_id g s inside =
      let (sorted, runs, all, size) = sort_ops-returns cs.bytes cs.op_list usable in
      let (r, marks) =
        mark-returns cs.bytes 0 sorted cs.shard_starts cs.shard_op_count all
          (ap length fresh_starts) (ap length fresh_counts) in
      let cs' : ChangeSet = record cs {
        op_list = sorted;
        shard_starts = r.0;
        shard_op_count = r.1;
      } in
      let (order, perm) = sort_ops-IsSorted cs.bytes cs.op_list sorted runs in
      let known =
        mark_lem shard_id 0 sorted cs.shard_starts cs.shard_op_count (r.0) (r.1) u32_max 0
          (omega (arith, fits, size)) (omega (arith, fits, size))
          (rw fresh_starts (get_elem?-replicate shard_count shard_id u32_max inside))
          (rw fresh_counts (get_elem?-replicate shard_count shard_id 0 inside)) marks in
      (
        cs',
        rw (runs, marks) refl,
        refl,
        perm,
        IsSorted-IsOrdered cs.bytes sorted order,
        known.1 ∙ ap some (omega arith),
        run_from_start cs' g shard_id s order (omega (arith, fits, size)) (known.0),
      )
