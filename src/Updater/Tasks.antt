-- ===== src/Updater/Tasks.antt =====
-- `run_task` and `run_task_with_ooo_id` of qmdb/src/updater.rs.
pub mod Chain
use qmdb.Common.{
  ℕ, zero, suc, ◌+◌, ◌-◌, ◌^◌, List, [], ◌∷◌, Bool, true, false, Option, none, some, length, ◌==◌,
  if◌then◌else◌, ◌>>=◌, bit_and,
}
use qmdb.Def.{in_block_idx_bits}
use qmdb.Extern.Byteorder.{ByteOrder}
use qmdb.Extern.Sha2.{Sha256}
use qmdb.Updater.Env.{Env, Op, write, create, delete, read, other}
use qmdb.Updater.Kv.{Updater, write_kv, create_kv, delete_kv}

-- `HashMap::remove`: the value and the map without the key.
abbrev pub remove : List (ℕ × ℕ) → ℕ → Option (ℕ × List (ℕ × ℕ))
remove [] id = none
remove ((k, v) ∷ rest) id =
    let r = remove rest id in
    elim (k == id) [
      | true ↦ some (v, rest)
      | false ↦ elim r [ none ↦ none | some q ↦ some (q.0, (k, v) ∷ q.1) ]
    ]

-- `HashMap::insert`: the old value of the key is dropped.
abbrev pub insert : List (ℕ × ℕ) → ℕ → ℕ → List (ℕ × ℕ)
insert m id v = elim (remove m id) [ none ↦ (id, v) ∷ m | some q ↦ (id, v) ∷ q.1 ]

module _ {S : Type 0} (env : Env S) (bo : ByteOrder) (sha : Sha256) (fuel : ℕ) where
  pub run_op : Op → Updater S → Option (Updater S)
  unfolding write_kv create_kv delete_kv
  run_op (write key_hash k v) u = write_kv env bo sha fuel key_hash k v u
  run_op (create key_hash k v) u = create_kv env bo sha fuel key_hash k v u
  run_op (delete key_hash k) u = delete_kv env bo sha key_hash k u
  run_op read u = some u
  run_op other u = none

  pub run_ops : List Op → Updater S → Option (Updater S)
  unfolding run_op
  run_ops [] u = some u
  run_ops (op ∷ ops) u = do u1 ← run_op op u; run_ops ops u1

  -- The operations of the shard in each change set.
  pub run_change_sets : List (List Op) → Updater S → Option (Updater S)
  unfolding run_ops
  run_change_sets [] u = some u
  run_change_sets (ops ∷ rest) u = do
    u1 ← run_ops ops u
    run_change_sets rest (record u1 { curr_version = u1.curr_version + 1 })

  pub run_task : ℕ → Updater S → Option (Updater S)
  unfolding run_change_sets
  run_task task_id u = do
    let b = env.check_begin_end u.services task_id
    let version =
        if bit_and task_id (2 ^ in_block_idx_bits - 1) == 0 then task_id else u.curr_version
    u1 ←
        run_change_sets (env.get_change_sets (b.0) task_id)
          (record u { services = b.0; curr_version = version })
    some (
        if b.1
        then record u1 {
          services = env.end_block u1.services u1.compact_done_pos u1.sn_start u1.sn_end;
        }
        else u1)

-- The loop of `run_task_with_ooo_id`, which takes an entry off the map in each round: the state,
-- and the task that waits.
pub step_forward :
    {U : Type 0} → (ℕ → U → Option U) → ℕ → List (ℕ × ℕ) → ℕ → U → Option (U × List (ℕ × ℕ) × ℕ)
step_forward run zero m next_task_id u = none
step_forward run (suc fuel) m next_task_id u = elim (remove m next_task_id) [
  | none ↦ some (u, m, next_task_id)
  | some q ↦ do u1 ← run next_task_id u; step_forward run fuel (q.1) (q.0) u1
]

module _ {S : Type 0} (env : Env S) (bo : ByteOrder) (sha : Sha256) (fuel : ℕ) where
  unfoldable run_task_with_ooo_id : ℕ → ℕ → Updater S → Option (Updater S)
  unfolding step_forward run_task
  run_task_with_ooo_id task_id next_task_id u = do
    let m = insert u.next_task_id_map task_id next_task_id
    r ← step_forward (run_task env bo sha fuel) (suc (length m)) m u.next_task_id u
    some (record (r.0) { next_task_id_map = r.1; next_task_id = r.2 })
