-- ===== src/Scheduler/TaskStore.antt =====
-- `ITaskStore` of src/common/scheduler/include/scheduler/task_store.hpp, and what a store promises.
use hhctrl_mgmt.Base.{ℕ, ◌≡◌, Bool, Option, none, some, ◌==◌, String, if◌then◌else◌}
use hhctrl_mgmt.Base.Outcome.{done, M}

pub record TaskEntity : Type 0 where
  pub id : ℕ
  pub owner : String
  pub timestamp : ℕ

pub record TaskStore : Type 1 where
  pub State : Type 0
  pub add : TaskEntity → M State (Unit {0})
  pub exist : ℕ → State → Bool
  pub find : ℕ → State → Option TaskEntity
  pub remove : ℕ → M State (Unit {0})

-- A store that works is a map from ids to entities, which `add` extends and `remove` shrinks.
pub record IsTaskStore (T : TaskStore) : Type 1 where
  pub IsValid : T.State → Type 0
  pub find-add :
      (entity : TaskEntity) (s : T.State)
      → IsValid s
      → T.find entity.id s ≡ none
      → (s' : T.State) × (T.add entity s ≡ done (tt, s'))
        × IsValid s'
        × ((id : ℕ) → T.find id s' ≡ (if id == entity.id then some entity else T.find id s))
  pub find-remove :
      (task_id : ℕ) (entity : TaskEntity) (s : T.State)
      → IsValid s
      → T.find task_id s ≡ some entity
      → (s' : T.State) × (T.remove task_id s ≡ done (tt, s'))
        × IsValid s'
        × ((id : ℕ) → T.find id s' ≡ (if id == task_id then none else T.find id s))
