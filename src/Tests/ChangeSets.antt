-- ===== src/Tests/ChangeSets.antt =====
-- The change set of qmdb/src/utils/changeset.rs with three operations.
use mathlib.Core.List.{Perm}
use qmdb.Common.{
  ℕ, ◌+◌, ◌^◌, ◌<◌, ◌≡◌, refl, ◌>>=◌, List, [], ◌∷◌, some, none, length, replicate, arith,
}
use qmdb.Def.{shard_count}
use qmdb.Utils.ChangeSet.{
  ChangeSet, Visit, new, add_op, add_op_with_old_value, sort, run_in_shard, run_ops, run_all,
  apply_op_in_range, op_count_in_shard, u32_max,
}
use qmdb.Utils.ChangeSet.Ordered.{IsOrdered}
use qmdb.Utils.ChangeSet.Returns.{AllUsable}
use qmdb.Utils.ChangeSet.Shards.{of_shard}
use qmdb.Utils.ChangeSet.Sorted.{sort_lem}
use qmdb.Utils.ChangeSet.Visits.{added_lem}

-- As in the test of the source: the shards 1, 0 and 0.
abbrev set : ChangeSet
unfolding add_op
set = add_op 3 0 (replicate 32 0) (1 ∷ 2 ∷ []) (5 ∷ []) none (
    add_op 2 0 (replicate 32 1) (1 ∷ 3 ∷ []) (6 ∷ []) none
      (add_op 1 1 (replicate 32 1) (1 ∷ 4 ∷ []) (7 ∷ []) none new))

-- The callback notes the keys.
abbrev note : Visit → List (List ℕ) → List (List ℕ)
note v seen = v.key ∷ seen

abbrev note_old : Visit → List ℕ → List (List ℕ) → List (List ℕ)
note_old v old seen = v.key ∷ old ∷ seen

set-AllUsable : AllUsable set.bytes set.op_list
unfolding add_op
set-AllUsable = (
  record { in_shard = omega arith; key_hash = replicate 32 1; has_hash = refl },
  (
    record { in_shard = omega arith; key_hash = replicate 32 1; has_hash = refl },
    (record { in_shard = omega arith; key_hash = replicate 32 0; has_hash = refl }, tt),
  ),
)

fresh_starts : set.shard_starts ≡ replicate shard_count u32_max
unfolding add_op
fresh_starts = refl

fresh_counts : set.shard_op_count ≡ replicate shard_count 0
unfolding add_op
fresh_counts = refl

set-fits : length set.op_list < u32_max
unfolding add_op
set-fits = omega arith

sort_lem_example :
    (set' : ChangeSet) × (sort set ≡ some set')
    × (set'.bytes ≡ set.bytes)
    × Perm set.op_list set'.op_list
    × IsOrdered set.bytes set'.op_list
    × (op_count_in_shard set' 0 ≡ some (length (of_shard 0 set'.op_list)))
    × (run_in_shard 0 note set' [] ≡ run_ops set.bytes note (of_shard 0 set'.op_list) [])
sort_lem_example =
    sort_lem set set-AllUsable fresh_starts fresh_counts set-fits 0 note [] (omega arith)

-- The keys of shard 0 in the order of the key hashes; the last is in front.
runs_in_order :
    (do set' ← sort set; run_in_shard 0 note set' []) ≡ some ((1 ∷ 3 ∷ []) ∷ (1 ∷ 2 ∷ []) ∷ [])
unfolding add_op sort run_in_shard
runs_in_order = refl

noted : run_all note set [] ≡ some ((1 ∷ 2 ∷ []) ∷ (1 ∷ 3 ∷ []) ∷ (1 ∷ 4 ∷ []) ∷ [])
unfolding add_op run_all
noted = refl

old_noted :
    apply_op_in_range note_old set []
    ≡ some ((1 ∷ 2 ∷ []) ∷ [] ∷ (1 ∷ 3 ∷ []) ∷ [] ∷ (1 ∷ 4 ∷ []) ∷ [] ∷ [])
unfolding add_op apply_op_in_range
old_noted = refl

abbrev last_visit : Visit
last_visit = record {
  op_type = 2;
  key_hash = replicate 32 9;
  key = 8 ∷ [];
  value = 9 ∷ [];
  rec = none;
}

set-small : length set.bytes + 1 + 1 + 2 < 2 ^ 32
unfolding add_op
set-small = omega arith

added_lem_example :
    let set' = add_op_with_old_value 2 4 (replicate 32 9) (8 ∷ []) (9 ∷ []) (3 ∷ 3 ∷ []) none set in
    (apply_op_in_range note_old set' []
      ≡ some (
          note_old last_visit
            (3 ∷ 3 ∷ [])
            ((1 ∷ 2 ∷ []) ∷ [] ∷ (1 ∷ 3 ∷ []) ∷ [] ∷ (1 ∷ 4 ∷ []) ∷ [] ∷ [])))
    × (run_all note set' []
        ≡ some (note last_visit ((1 ∷ 2 ∷ []) ∷ (1 ∷ 3 ∷ []) ∷ (1 ∷ 4 ∷ []) ∷ [])))
    × (add_op 2 4 (replicate 32 9) (8 ∷ []) (9 ∷ []) none set
        ≡ add_op_with_old_value 2 4 (replicate 32 9) (8 ∷ []) (9 ∷ []) [] none set)
added_lem_example =
    added_lem set 2 4 (replicate 32 9) (8 ∷ []) (9 ∷ []) (3 ∷ 3 ∷ []) none set-small (omega arith)
      refl note_old note [] _ [] _ old_noted noted
