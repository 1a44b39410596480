-- ===== src/Tasks/Manager.antt =====
-- `TasksManager` of qmdb/src/tasks/tasksmanager.rs, with the trait of qmdb/src/tasks/task.rs. An
-- `i64` is the number below 2^64 with the same bits; `none` is a panic. A lock is held for one call.
use qmdb.Common.{
  ℕ, ◌-◌, ◌^◌, List, [], Option, some, length, get_elem?, set, ltb, ◌>>=◌, ◌>>◌, assert,
}

-- The trait: what a task has to offer.
pub record Task (T C : Type 0) : Type 0 where
  pub get_change_sets : T → C

pub record TasksManager (T : Type 0) : Type 0 where
  pub tasks : List (Option T)
  pub last_task_id : ℕ

-- -1.
abbrev pub minus_one : ℕ
minus_one = 2 ^ 64 - 1

module _ {T : Type 0} where
  abbrev pub default : TasksManager T
  default = record { tasks = []; last_task_id = minus_one }

  unfoldable pub new : List (Option T) → ℕ → TasksManager T
  new tasks last_task_id = record { tasks = tasks; last_task_id = last_task_id }

  unfoldable pub tasks_len : TasksManager T → ℕ
  tasks_len m = length m.tasks

  unfoldable pub get_last_task_id : TasksManager T → ℕ
  get_last_task_id m = m.last_task_id

  unfoldable pub set_last_task_id : TasksManager T → ℕ → TasksManager T
  set_last_task_id m id = record m { last_task_id = id }

  unfoldable pub get_tasks_change_sets : {C : Type 0} → Task T C → TasksManager T → ℕ → Option C
  get_tasks_change_sets trait m idx = do
    task_opt ← get_elem? m.tasks idx
    task ← task_opt
    some (trait.get_change_sets task)

  unfoldable pub task_for_read : TasksManager T → ℕ → Option (Option T)
  task_for_read m idx = do assert (ltb idx (length m.tasks)); get_elem? m.tasks idx

  unfoldable pub set_task : TasksManager T → ℕ → T → Option (TasksManager T)
  set_task m idx task = do
    assert (ltb idx (length m.tasks))
    some (record m { tasks = set m.tasks idx (some task) })
