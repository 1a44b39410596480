-- ===== src/Tasks/Hub.antt =====
-- `BlockPairTaskHub` of qmdb/src/tasks/bptaskhub.rs, one call at a time. A height is an `i64`, the
-- number below 2^64 with the same bits; `none` is a panic.
pub mod Blocks
pub mod Laws
use qmdb.Common.{
  ℕ, ◌+◌, ◌-◌, ◌/◌, ◌^◌, Bool, true, false, not, Option, none, some, leb, ltb, ◌==◌, if◌then◌else◌,
  bit_and, ◌>>=◌,
}
use qmdb.Def.{in_block_idx_bits}
use qmdb.Tasks.Manager.{
  TasksManager, Task, minus_one, default, get_last_task_id, get_tasks_change_sets,
}

-- Over the tasks and the entry cache.
pub record BlockPairTaskHub (T E : Type 0) : Type 0 where
  pub tasks_in_blk0 : TasksManager T
  pub tasks_in_blk1 : TasksManager T
  pub height0 : ℕ
  pub height1 : ℕ
  pub cache0 : E
  pub cache1 : E

-- `x < 0`.
abbrev pub is_negative : ℕ → Bool
is_negative x = leb (2 ^ 63) x

-- The shift of an `i64`, which keeps the sign.
abbrev pub height_of : ℕ → ℕ
height_of task_id =
    if is_negative task_id
    then task_id / 2 ^ in_block_idx_bits + (2 ^ 64 - 2 ^ (64 - in_block_idx_bits))
    else task_id / 2 ^ in_block_idx_bits

abbrev pub in_block_idx_mask : ℕ
in_block_idx_mask = 2 ^ in_block_idx_bits - 1

module _ {T E : Type 0} where
  unfoldable pub new : E → BlockPairTaskHub T E
  new uninit = record {
    tasks_in_blk0 = default;
    tasks_in_blk1 = default;
    height0 = minus_one;
    height1 = minus_one;
    cache0 = uninit;
    cache1 = uninit;
  }

  unfoldable pub free_slot_count : BlockPairTaskHub T E → ℕ
  free_slot_count hub =
      (if is_negative hub.height0 then 1 else 0) + (if is_negative hub.height1 then 1 else 0)

  unfoldable pub end_block : ℕ → BlockPairTaskHub T E → Option (BlockPairTaskHub T E)
  end_block height hub =
      if hub.height0 == height
      then some (record hub { height0 = minus_one })
      else if hub.height1 == height
      then some (record hub { height1 = minus_one })
      else none

  unfoldable pub start_block :
      ℕ → TasksManager T → E → BlockPairTaskHub T E → Option (BlockPairTaskHub T E)
  start_block height tasks_in_blk cache hub =
      if is_negative hub.height0
      then some (record hub { tasks_in_blk0 = tasks_in_blk; cache0 = cache; height0 = height })
      else if is_negative hub.height1
      then some (record hub { tasks_in_blk1 = tasks_in_blk; cache1 = cache; height1 = height })
      else none

  -- What both of its arms do with their block.
  pub begin_end : ℕ → TasksManager T → E → Option E × Bool
  unfolding get_last_task_id
  begin_end task_id tasks cache = (
    if not (bit_and task_id in_block_idx_mask == 0) then none else some cache,
    get_last_task_id tasks == task_id,
  )

  unfoldable pub check_begin_end : BlockPairTaskHub T E → ℕ → Option (Option E × Bool)
  unfolding begin_end
  check_begin_end hub task_id =
      if hub.height0 == height_of task_id
      then some (begin_end task_id hub.tasks_in_blk0 hub.cache0)
      else if hub.height1 == height_of task_id
      then some (begin_end task_id hub.tasks_in_blk1 hub.cache1)
      else none

  unfoldable pub get_change_sets : {C : Type 0} → Task T C → BlockPairTaskHub T E → ℕ → Option C
  unfolding get_tasks_change_sets
  get_change_sets trait hub task_id =
      let idx = bit_and task_id in_block_idx_mask in
      if hub.height0 == height_of task_id
      then get_tasks_change_sets trait hub.tasks_in_blk0 idx
      else if hub.height1 == height_of task_id
      then get_tasks_change_sets trait hub.tasks_in_blk1 idx
      else none
