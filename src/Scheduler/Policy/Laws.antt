-- ===== src/Scheduler/Policy/Laws.antt =====
-- What adding a task does to the tasks that run and to the store.
use hhctrl_mgmt.Base.{
  ℕ, ◌≡◌, refl, false, Option, none, some, List, [], ◌∷◌, ◌++◌, ◌==◌, if◌then◌else◌, arith, ==_iff,
}
use hhctrl_mgmt.Base.Outcome.{done}
use hhctrl_mgmt.Scheduler.TaskStore.{TaskEntity, TaskStore, IsTaskStore}
use hhctrl_mgmt.Scheduler.Tasks.{Task, set_expiry, from_timestamp, to_timestamp}
use hhctrl_mgmt.Scheduler.Policy.{
  strict, Scheduler, is_active, entity_of, is_task_active, add_task_to_store,
  process_strict_policy_task, add_task, activate_task,
}

-- A time stamp is kept through a time point.
timestamp_kept : (n : ℕ) → to_timestamp (from_timestamp n) ≡ n
unfolding to_timestamp from_timestamp
timestamp_kept n = omega arith

-- The task with the expiry that the store has for it.
abbrev pub restored : Option TaskEntity → Task → Task
restored none task = task
restored (some e) task = set_expiry (from_timestamp e.timestamp) task

-- The ids of the tasks that run differ.
abbrev pub HasUniqueTasks : List Task → Type 0
HasUniqueTasks [] = Unit
HasUniqueTasks (t ∷ ts) = (is_active t.id ts ≡ false) × HasUniqueTasks ts

is_active-append :
    (id : ℕ) (t : Task) (ts : List Task)
    → is_active id ts ≡ false
    → (id == t.id) ≡ false
    → is_active id (ts ++ (t ∷ [])) ≡ false
is_active-append id t [] h k = ground (arith, h, k)
is_active-append id t (u ∷ ts) h k = ground (arith, h, k, is_active-append id t ts)

pub append-HasUniqueTasks :
    (t : Task) (ts : List Task)
    → is_active t.id ts ≡ false
    → HasUniqueTasks ts
    → HasUniqueTasks (ts ++ (t ∷ []))
append-HasUniqueTasks t [] h u = (refl, tt)
append-HasUniqueTasks t (x ∷ ts) h u = (
  is_active-append x.id t ts u.0 (ground (arith, h, ==_iff t.id x.id, ==_iff x.id t.id)),
  append-HasUniqueTasks t ts (ground (arith, h, ==_iff t.id x.id)) u.1,
)

module _ (T : TaskStore) (L : IsTaskStore T) where
  open L use {IsValid, find-add, find-remove}

  -- Over a store that works, is in a valid state and has this entity or none for the task, and
  -- with tasks whose ids differ: adding a task whose id is not active, with the strict policy,
  -- returns. The task that runs has the expiry that the store had for it, if it had one, and its
  -- own otherwise; the store then has that expiry for it, cut to milliseconds, and is unchanged
  -- for all other ids; the store stays valid, and the ids of the active tasks still differ.
  pub add_task_strict :
      (task : Task) (s : Scheduler T) (stored : Option TaskEntity)
      → IsValid s.tasks_store
      → HasUniqueTasks s.active_tasks
      → is_task_active T (task.id) s ≡ false
      → T.find task.id s.tasks_store ≡ stored
      → (s' : Scheduler T) × (add_task T task strict s ≡ done (tt, s'))
        × IsValid s'.tasks_store
        × (s'.active_tasks ≡ s.active_tasks ++ (restored stored task ∷ []))
        × HasUniqueTasks s'.active_tasks
        × ((id : ℕ)
            → T.find id s'.tasks_store ≡ (
                if id == task.id
                then some (entity_of (restored stored task))
                else T.find id s.tasks_store))
  unfolding add_task is_task_active process_strict_policy_task add_task_to_store activate_task
      set_expiry
  add_task_strict task s none v u a e =
      let (store, added, valid, found) = find-add (entity_of task) s.tasks_store v e in
      (
        record { tasks_store = store; active_tasks = s.active_tasks ++ (task ∷ []) },
        simp (add_task, a, e, added) refl,
        valid,
        refl,
        append-HasUniqueTasks task s.active_tasks a u,
        found,
      )
  add_task_strict task s (some x) v u a e =
      let (store₁, removed, valid₁, found₁) = find-remove task.id x s.tasks_store v e in
      let started : Task = restored (some x) task in
      let (store₂, added, valid₂, found₂) =
        find-add (entity_of started) store₁ valid₁ (ground (arith, found₁ task.id)) in
      (
        record { tasks_store = store₂; active_tasks = s.active_tasks ++ (started ∷ []) },
        simp (add_task, a, e, removed, added) refl,
        valid₂,
        refl,
        append-HasUniqueTasks started s.active_tasks a u,
        λ id. ground (arith, found₁ id, found₂ id),
      )

  -- Over a store that works and is in a valid state: a task is started with the strict policy
  -- where its id is neither active nor in the store, and a task of the same id is then started by
  -- a scheduler without active tasks that is given that store, as after a restart. The second runs
  -- with the first one's expiry, cut to milliseconds, whatever expiry it had.
  add_task_restart :
      (first second : Task) (s : Scheduler T)
      → IsValid s.tasks_store
      → HasUniqueTasks s.active_tasks
      → is_task_active T (first.id) s ≡ false
      → T.find first.id s.tasks_store ≡ none
      → second.id ≡ first.id
      → (s₁ s₂ : Scheduler T) × (add_task T first strict s ≡ done (tt, s₁))
        × (add_task T second strict (record { tasks_store = s₁.tasks_store; active_tasks = [] })
            ≡ done (tt, s₂))
        × (s₂.active_tasks ≡ set_expiry (from_timestamp (to_timestamp first.expiry)) second ∷ [])
  unfolding is_task_active
  add_task_restart first second s v u a e same =
      let (s₁, added, valid, active, unique, found) = add_task_strict first s none v u a e in
      let (s₂, again, valid₂, active₂, unique₂, found₂) =
        add_task_strict second (record { tasks_store = s₁.tasks_store; active_tasks = [] })
          (some (entity_of first)) valid tt refl (ground (arith, found second.id, same)) in
      (s₁, s₂, added, again, active₂)
