-- ===== src/Scheduler/Policy.antt =====
-- `Scheduler` of src/common/scheduler/scheduler.cpp and include/scheduler/scheduler.hpp, over any task
-- store. The executor and the tasks' handlers are left out.
pub mod Laws
use hhctrl_mgmt.Base.{
  ℕ, ◌≡◌, Bool, true, false, Option, none, some, List, [], ◌∷◌, ◌++◌, map, ◌==◌, String,
  if◌then◌else◌, any_of,
}
use hhctrl_mgmt.Base.Outcome.{Outcome, done, thrown, M, ◌>>=◌, ◌>>◌, pure, get, modify, after, lift}
use hhctrl_mgmt.Scheduler.TaskStore.{TaskEntity, TaskStore}
use hhctrl_mgmt.Scheduler.Tasks.{
  Task, Duration, ParseTime, new_task, set_expiry, from_timestamp, to_timestamp, generate_id,
}

pub data Execution : Type 0 where
  relaxed strict : Execution

pub record TaskInfo : Type 0 where
  pub id : ℕ
  pub owner : String
  pub expiry : ℕ

abbrev pub is_active : ℕ → List Task → Bool
is_active task_id = any_of (λ (t : Task). task_id == t.id)

abbrev pub entity_of : Task → TaskEntity
entity_of task = record { id = task.id; owner = task.owner; timestamp = to_timestamp task.expiry }

module _ (T : TaskStore) where
  pub record Scheduler : Type 0 where
    pub tasks_store : T.State
    pub active_tasks : List Task

  abbrev on_store : {A : Type 0} → M (T.State) A → M Scheduler A
  on_store m s = after (m s.tasks_store) (λ r. done (r.0, record s { tasks_store = r.1 }))

  unfoldable pub is_task_active : ℕ → Scheduler → Bool
  is_task_active task_id s = is_active task_id s.active_tasks

  unfoldable pub get_active_tasks : Scheduler → List TaskInfo
  get_active_tasks s =
      map (λ (t : Task). record { id = t.id; owner = t.owner; expiry = t.expiry }) s.active_tasks

  -- `activate` arms the task's timer, which the model keeps as the task's expiry.
  unfoldable pub activate_task : Task → M Scheduler (Unit {0})
  activate_task task = modify (λ s. record s { active_tasks = s.active_tasks ++ (task ∷ []) })

  unfoldable pub add_task_to_store : Task → M Scheduler (Unit {0})
  add_task_to_store task = on_store (T.add (entity_of task))

  -- The task, whose expiry it may have changed.
  unfoldable pub process_strict_policy_task : Task → M Scheduler Task
  unfolding add_task_to_store set_expiry from_timestamp
  process_strict_policy_task task = do
    s ← get
    elim (T.find task.id s.tasks_store) [
      | some existing_task ↦ do
        let task' = set_expiry (from_timestamp existing_task.timestamp) task
        on_store (T.remove task.id)
        add_task_to_store task'
        pure task'
      | none ↦ do add_task_to_store task; pure task
    ]

  unfoldable pub add_task : Task → Execution → M Scheduler (Unit {0})
  unfolding is_task_active process_strict_policy_task activate_task
  add_task new_task policy s = elim (is_task_active new_task.id s) [
    | true ↦ thrown
    | false ↦ elim policy [
      | strict ↦ after (process_strict_policy_task new_task s) (λ r. activate_task r.0 r.1)
      | relaxed ↦ activate_task new_task s
    ]
  ]

  -- `every`, when the clock shows `now`.
  unfoldable pub every :
      (ℕ → String) → (String → ℕ) → ParseTime → ℕ → String → Execution → Duration → M Scheduler ℕ
  unfolding add_task generate_id new_task
  every format name_generator parse_time now owner policy duration = do
    let task_id = generate_id format name_generator owner duration
    task ← lift (new_task parse_time now task_id owner duration)
    add_task task policy
    pure task_id
