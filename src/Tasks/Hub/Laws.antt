-- ===== src/Tasks/Hub/Laws.antt =====
-- qmdb/src/tasks/bptaskhub.rs: the hub against a list of at most two blocks.
use qmdb.Common.{
  ℕ, ◌+◌, ◌/◌, ◌%◌, ◌^◌, ◌<◌, get_elem?, ◌≡◌, ◌≢◌, ◌↔◌, inl, inr, refl, List, [], ◌∷◌, true, false,
  Option, none, some, length, ltb, ◌==◌, if◌then◌else◌, ◌>>=◌, Option-cases, arith,
}
use qmdb.Common.Bits.{bit_and-ones}
use qmdb.Def.{in_block_idx_bits}
use qmdb.Tasks.Manager.{TasksManager, Task}
use qmdb.Tasks.Hub.Blocks.{lookup, remove, Distinct, lookup-remove, Distinct-remove, length-remove}
use qmdb.Tasks.Hub.{
  BlockPairTaskHub, new, free_slot_count, start_block, end_block, check_begin_end, get_change_sets,
}

-- A call that changes the hub.
pub data Call (T E : Type 0) : Type 0 where
  start : ℕ → TasksManager T → E → Call T E
  end : ℕ → Call T E

-- The blocks in flight: the tasks and the cache of each height.
abbrev pub Blocks : Type 0 → Type 0 → Type 0
Blocks T E = List (ℕ × (TasksManager T × E))

module _ {T E : Type 0} where
  -- The contract: at most two blocks are in flight, and only such a block can end.
  abbrev pub step : Call T E → Blocks T E → Option (Blocks T E)
  step (start h t c) bs = if ltb (length bs) 2 then some ((h, (t, c)) ∷ bs) else none
  step (end h) bs = elim (lookup h bs) [ none ↦ none | some b ↦ some (remove h bs) ]

  pub call : Call T E → BlockPairTaskHub T E → Option (BlockPairTaskHub T E)
  unfolding start_block end_block
  call (start h t c) hub = start_block h t c hub
  call (end h) hub = end_block h hub

  -- The block that the hub has for a height.
  abbrev pub block : BlockPairTaskHub T E → ℕ → Option (TasksManager T × E)
  block hub h =
      if hub.height0 == h
      then some (hub.tasks_in_blk0, hub.cache0)
      else if hub.height1 == h
      then some (hub.tasks_in_blk1, hub.cache1)
      else none

  pub record Shows (hub : BlockPairTaskHub T E) (bs : Blocks T E) : Type 0 where
    pub found : (h : ℕ) → h < 2 ^ 63 → block hub h ≡ lookup h bs
    pub counted : free_slot_count hub + length bs ≡ 2
    pub apart : hub.height0 < 2 ^ 63 → hub.height0 ≢ hub.height1
    pub distinct : Distinct bs

  -- The heights are not negative, and no block starts while its height is in flight.
  abbrev pub IsOrderly : Call T E → Blocks T E → Type 0
  IsOrderly (start h t c) bs = (h < 2 ^ 63) × (lookup h bs ≡ none)
  IsOrderly (end h) bs = h < 2 ^ 63

  -- Both succeed, and the hub still shows the blocks; or both fail.
  abbrev pub Agree : Option (BlockPairTaskHub T E) → Option (Blocks T E) → Type 0
  Agree none none = Unit {0}
  Agree none (some bs) = ⊥
  Agree (some hub) none = ⊥
  Agree (some hub) (some bs) = Shows hub bs

  new-Shows : (uninit : E) → Shows (new {T = T} uninit) []
  unfolding new free_slot_count
  new-Shows uninit = record {
    found = λ h l. ground arith;
    counted = ground arith;
    apart = λ l. ground arith;
    distinct = tt;
  }

  started :
      (h : ℕ) (t : TasksManager T) (c : E) (hub hub' : BlockPairTaskHub T E) (bs : Blocks T E)
      → Shows hub bs
      → h < 2 ^ 63
      → lookup h bs ≡ none
      → start_block h t c hub ≡ some hub'
      → Shows hub' ((h, (t, c)) ∷ bs)
  unfolding start_block free_slot_count
  started h t c hub hub' bs v l n e = record {
    found = λ k lk. ground (arith, v.found k, v.found h);
    counted = ground (arith, v.counted);
    apart = λ lk. ground (arith, v.found h);
    distinct = (n, v.distinct);
  }

  ended :
      (h : ℕ) (hub hub' : BlockPairTaskHub T E) (bs : Blocks T E) (b : TasksManager T × E)
      → Shows hub bs
      → h < 2 ^ 63
      → lookup h bs ≡ some b
      → end_block h hub ≡ some hub'
      → Shows hub' (remove h bs)
  unfolding end_block free_slot_count
  ended h hub hub' bs b v l n e = record {
    found = λ k lk. ground (arith, v.found k, v.apart, lookup-remove h k bs v.distinct);
    counted = ground (arith, v.counted, length-remove h bs b n, v.apart);
    apart = λ lk. ground (arith, v.apart);
    distinct = Distinct-remove h bs v.distinct;
  }

  start_full :
      (h : ℕ) (t : TasksManager T) (c : E) (hub : BlockPairTaskHub T E) (bs : Blocks T E)
      → Shows hub bs
      → (ltb (length bs) 2 ≡ false) ↔ (start_block h t c hub ≡ none)
  unfolding start_block free_slot_count
  start_full h t c hub bs v = (λ e. ground (arith, v.counted), λ e. ground (arith, v.counted))

  end_absent :
      (h : ℕ) (hub : BlockPairTaskHub T E) (bs : Blocks T E)
      → Shows hub bs
      → h < 2 ^ 63
      → (lookup h bs ≡ none) ↔ (end_block h hub ≡ none)
  unfolding end_block
  end_absent h hub bs v l = (λ e. ground (arith, v.found h), λ e. ground (arith, v.found h))

  -- One call does what the contract says.
  call-Agree :
      (c : Call T E) (hub : BlockPairTaskHub T E) (bs : Blocks T E)
      → Shows hub bs
      → IsOrderly c bs
      → Agree (call c hub) (step c bs)
  unfolding call
  call-Agree (start h t c) hub bs v o = elim (Option-cases (start_block h t c hub)) [
    | inl e ↦ rw (e, (start_full h t c hub bs v).1 e) tt
    | inr (hub', e) ↦
        let room : ltb (length bs) 2 ≡ true = ground (arith, (start_full h t c hub bs v).0) in
        rw (e, room) (started h t c hub hub' bs v (o.0) (o.1) e)
  ]
  call-Agree (end h) hub bs v l = elim (Option-cases (end_block h hub)) [
    | inl e ↦ rw (e, step, (end_absent h hub bs v l).1 e) tt
    | inr (hub', e) ↦ elim (Option-cases (lookup h bs)) [
      | inl n ↦ absurd (cc ((end_absent h hub bs v l).0 n))
      | inr (b, n) ↦ rw (e, step, n) (ended h hub hub' bs b v l n e)
    ]
  ]

  pub run : List (Call T E) → BlockPairTaskHub T E → Option (BlockPairTaskHub T E)
  unfolding call
  run [] hub = some hub
  run (c ∷ cs) hub = do hub' ← call c hub; run cs hub'

  abbrev pub steps : List (Call T E) → Blocks T E → Option (Blocks T E)
  steps [] bs = some bs
  steps (c ∷ cs) bs = do bs' ← step c bs; steps cs bs'

  -- Every call is orderly when its turn comes.
  abbrev pub AllOrderly : List (Call T E) → Blocks T E → Type 0
  AllOrderly [] bs = Unit {0}
  AllOrderly (c ∷ cs) bs =
      IsOrderly c bs × ((bs' : Blocks T E) → step c bs ≡ some bs' → AllOrderly cs bs')

  run-Agree :
      (cs : List (Call T E)) (hub : BlockPairTaskHub T E) (bs : Blocks T E)
      → Shows hub bs
      → AllOrderly cs bs
      → Agree (run cs hub) (steps cs bs)
  unfolding run
  run-Agree [] hub bs v o = v
  run-Agree (c ∷ cs) hub bs v o =
      next (call c hub) (step c bs) (call-Agree c hub bs v (o.0)) (o.1) (run-Agree cs)
    where
      next :
          (a : Option (BlockPairTaskHub T E)) (b : Option (Blocks T E))
          → Agree a b
          → ((bs' : Blocks T E) → b ≡ some bs' → AllOrderly cs bs')
          → ((hub : BlockPairTaskHub T E) (bs : Blocks T E)
              → Shows hub bs
              → AllOrderly cs bs
              → Agree (run cs hub) (steps cs bs))
          → Agree (a >>= run cs) (b >>= steps cs)
      next none none g o ih = tt
      next none (some bs') g o ih = absurd g
      next (some hub') none g o ih = absurd g
      next (some hub') (some bs') g o ih = ih hub' bs' g (o bs' refl)

  -- A new hub refines the list of at most two blocks: for every sequence of calls with heights
  -- that are not negative and that starts no block while its height is in flight, the hub panics
  -- exactly when the contract fails (a start with two blocks in flight, an end of a height that is
  -- not), and otherwise ends with one free slot for each block less than two, and with the tasks
  -- and the cache of just the blocks in flight under their heights.
  pub run-new-Agree :
      (uninit : E) (cs : List (Call T E))
      → AllOrderly cs []
      → Agree (run cs (new uninit)) (steps cs [])
  run-new-Agree uninit cs o = run-Agree cs (new uninit) [] (new-Shows uninit) o

  -- On a hub with these blocks, and with a task id below 2^63, which is one that is not negative, a
  -- query for the task panics when the task's height is not in flight. Otherwise `check_begin_end`
  -- gives the block's cache for the first task of the block, and says whether the
  -- task is the block's last one; `get_change_sets` gives those of the block's task with the
  -- number within the block, and panics when there is no such task.
  pub query_lem :
      {C : Type 0} (trait : Task T C) (hub : BlockPairTaskHub T E) (bs : Blocks T E) (task_id : ℕ)
      → Shows hub bs
      → task_id < 2 ^ 63
      → let in_flight = lookup (task_id / 2 ^ in_block_idx_bits) bs in
        let idx = task_id % 2 ^ in_block_idx_bits in
        (check_begin_end hub task_id ≡ (
          in_flight >>= λ b.
          some ((if idx == 0 then some (b.1) else none), b.0.last_task_id == task_id)))
        × (get_change_sets trait hub task_id ≡ (
            in_flight >>= λ b.
            get_elem? b.0.tasks idx >>= λ t. t >>= λ task. some (trait.get_change_sets task)))
  unfolding check_begin_end get_change_sets
  query_lem trait hub bs task_id v l =
      let below : task_id / 2 ^ in_block_idx_bits < 2 ^ 63 = omega arith in
      rw (bit_and-ones in_block_idx_bits task_id, ← v.found (task_id / 2 ^ in_block_idx_bits) below)
        (ground arith, ground arith)
