-- ===== src/Tests/Hubs.antt =====
-- The hub of qmdb/src/tasks/bptaskhub.rs on a few blocks, with a number for a task and for a cache.
use qmdb.Common.{ℕ, ◌+◌, ◌*◌, ◌^◌, ◌≡◌, refl, List, [], ◌∷◌, some, none, true, arith}
use qmdb.Tasks.Manager.{TasksManager, Task}
use qmdb.Tasks.Hub.{BlockPairTaskHub, new, free_slot_count, check_begin_end, get_change_sets}
use qmdb.Tasks.Hub.Laws.{Call, start, end, run, steps, Agree, Shows, run-new-Agree, query_lem}

abbrev tasks : TasksManager ℕ
tasks = record { tasks = some 5 ∷ some 6 ∷ none ∷ []; last_task_id = 7 * 2 ^ 24 + 1 }

abbrev calls : List (Call ℕ ℕ)
calls = start 7 tasks 70 ∷ start 8 tasks 80 ∷ end 7 ∷ start 9 tasks 90 ∷ []

run-new-Agree_example : Agree (run calls (new 0)) (steps calls [])
run-new-Agree_example = run-new-Agree 0 calls (
  (omega arith, refl),
  λ bs e. (
    (omega arith, ground arith),
    λ bs1 e1. (omega arith, λ bs2 e2. ((omega arith, ground arith), λ bs3 e3. tt)),
  ),
)

abbrev hub : BlockPairTaskHub ℕ ℕ
hub = record {
  tasks_in_blk0 = tasks;
  tasks_in_blk1 = tasks;
  height0 = 7;
  height1 = 8;
  cache0 = 70;
  cache1 = 80;
}

hub-Shows : Shows hub ((8, (tasks, 80)) ∷ (7, (tasks, 70)) ∷ [])
unfolding free_slot_count
hub-Shows = record {
  found = λ h l. ground arith;
  counted = refl;
  apart = λ l. ground arith;
  distinct = (refl, (refl, tt));
}

abbrev own : Task ℕ ℕ
own = record { get_change_sets = λ t. t }

-- The second task of block 7 is its last.
query_lem_example :
    (check_begin_end hub (7 * 2 ^ 24 + 1) ≡ some (none, true))
    × (get_change_sets own hub (7 * 2 ^ 24 + 1) ≡ some 6)
query_lem_example = query_lem own hub _ (7 * 2 ^ 24 + 1) hub-Shows (omega arith)
