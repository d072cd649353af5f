-- ===== src/Scheduler/Running/Laws.antt =====
-- What the tasks that run do to each other and to the store.
use hhctrl_mgmt.Base.{
  ℕ, ◌≡◌, refl, Bool, true, false, none, some, [], ◌∷◌, ◌==◌, String, arith, ==_iff, any_of,
}
use hhctrl_mgmt.Base.Outcome.{done, same_state}
use hhctrl_mgmt.Scheduler.TaskStore.{TaskStore, IsTaskStore}
use hhctrl_mgmt.Scheduler.Tasks.{Task, ParseTime, set_expiry, from_timestamp, to_timestamp}
use hhctrl_mgmt.Scheduler.Policy.{Scheduler, strict, is_active, entity_of, is_task_active, add_task}
use hhctrl_mgmt.Scheduler.Policy.Laws.{HasUniqueTasks, add_task_strict}
use hhctrl_mgmt.Scheduler.Running.Tasks.{
  is_active-run_task, HasUniqueTasks-run_task, any_of-erase_if,
}
use hhctrl_mgmt.Scheduler.Running.Added.{IsAdded, add_task-fresh, add_task-IsAdded, every-task}
use hhctrl_mgmt.Scheduler.Running.{Running, timer_handler, Runs, start, added, timer}

module _ (T : TaskStore) (L : IsTaskStore T) where
  open L use {IsValid, find-add, find-remove}

  -- The store is valid, the ids of the tasks differ, and only active tasks are waited for.
  pub record IsRunning (r : Running T) : Type 0 where
    pub valid : IsValid (r.scheduler).tasks_store
    pub unique : HasUniqueTasks (r.scheduler).active_tasks
    pub waited :
        (i : ℕ)
        → any_of (λ j. i == j) r.waiting ≡ true
        → is_active i (r.scheduler).active_tasks ≡ true

  -- The active tasks of the first state are active in the second, and the store has the same for them.
  pub record IsKept (r r' : Running T) : Type 0 where
    pub active :
        (i : ℕ)
        → is_active i (r.scheduler).active_tasks ≡ true
        → is_active i (r'.scheduler).active_tasks ≡ true
    pub entity :
        (i : ℕ)
        → is_active i (r.scheduler).active_tasks ≡ true
        → T.find i (r'.scheduler).tasks_store ≡ T.find i (r.scheduler).tasks_store

  IsKept-trans : {r₁ r₂ r₃ : Running T} → IsKept r₁ r₂ → IsKept r₂ r₃ → IsKept r₁ r₃
  IsKept-trans h k = record {
    active = λ i x. k.active i (h.active i x);
    entity = λ i x. cc (k.entity i (h.active i x), h.entity i x);
  }

  added-lem :
      (r : Running T) (task : Task) (s : Scheduler T) (id : ℕ)
      → IsRunning r
      → IsAdded T L task r.scheduler s
      → task.id ≡ id
      → IsRunning (record { scheduler = s; waiting = id ∷ r.waiting })
        × IsKept r (record { scheduler = s; waiting = id ∷ r.waiting })
  added-lem r task s id h a same = (
    record {
      valid = a.valid;
      unique = a.unique;
      waited = λ i w. ground (arith, a.active i, h.waited i, w, same);
    },
    record {
      active = λ i x. ground (arith, a.active i, x);
      entity = λ i x. a.found i (ground (arith, x, a.fresh, ==_iff i task.id));
    },
  )

  timer-lem :
      (r : Running T) (error_code : Bool) (now id : ℕ)
      → IsRunning r
      → IsRunning (timer_handler T error_code now id r)
        × IsKept r (timer_handler T error_code now id r)
  unfolding timer_handler
  timer-lem r true now id h = (
    record {
      valid = h.valid;
      unique = h.unique;
      waited = λ i w. h.waited i (any_of-erase_if i id r.waiting w);
    },
    record { active = λ i x. x; entity = λ i x. refl },
  )
  timer-lem r false now id h = (
    record {
      valid = h.valid;
      unique = HasUniqueTasks-run_task now id (r.scheduler).active_tasks h.unique;
      waited = λ i w. rw (is_active-run_task now id i (r.scheduler).active_tasks) (h.waited i w);
    },
    record {
      active = λ i x. rw (is_active-run_task now id i (r.scheduler).active_tasks) x;
      entity = λ i x. refl;
    },
  )

  module _ (format : ℕ → String) (name_generator : String → ℕ) (parse_time : ParseTime) where
    -- In every state that is reached by adding tasks and by timers that run out or fail, in any order,
    -- from a state over a store that works where the store is valid, the ids of the tasks differ and
    -- only active tasks are waited for: this is so again, and a task that was active still is, and
    -- what the store has for it has not changed, however often it has run.
    pub Runs-IsRunning :
        {r r' : Running T}
        → Runs T format name_generator parse_time r r'
        → IsRunning r
        → IsRunning r' × IsKept r r'
    Runs-IsRunning start h = (h, record { active = λ i x. x; entity = λ i x. refl })
    Runs-IsRunning (added {r₁} {id} {s} now owner policy duration run e) h =
        let (before, kept) = Runs-IsRunning run h in
        let (task, stored, same) =
          every-task T L format name_generator parse_time now owner policy duration r₁.scheduler s
            id e in
        let (after_it, kept_it) =
          added-lem r₁ task s id before
            (add_task-IsAdded T L task policy r₁.scheduler s before.valid before.unique stored)
            same in
        (after_it, IsKept-trans kept kept_it)
    Runs-IsRunning (timer {r₁} error_code now id run w) h =
        let (before, kept) = Runs-IsRunning run h in
        let (after_it, kept_it) = timer-lem r₁ error_code now id before in
        (after_it, IsKept-trans kept kept_it)

    -- Over a store that works, from a state where it is valid, the ids of the tasks differ and only
    -- active tasks are waited for: a call that starts a task with the strict policy returns, and the
    -- store had nothing for its id; other tasks are then added, and tasks run or have their timers
    -- fail, this one too, in any order; the program is started again, and a task of this id is added
    -- with the strict policy. That call returns, and the task runs with the expiry that the first one
    -- was started with, cut to milliseconds, not with the one that the runs had moved it to.
    pub run_restart :
        (first second : Task) (r : Running T) (s₁ : Scheduler T) (r' : Running T)
        → IsRunning r
        → T.find first.id (r.scheduler).tasks_store ≡ none
        → add_task T first strict r.scheduler ≡ done (tt, s₁)
        → Runs T format name_generator parse_time
            (record { scheduler = s₁; waiting = first.id ∷ r.waiting })
            r'
        → second.id ≡ first.id
        → (s₂ : Scheduler T) × (add_task T second strict
              (record { tasks_store = (r'.scheduler).tasks_store; active_tasks = [] })
            ≡ done (tt, s₂))
          × (s₂.active_tasks ≡ set_expiry (from_timestamp (to_timestamp first.expiry)) second ∷ [])
    unfolding is_task_active
    run_restart first second r s₁ r' h e stored run same =
        let a = add_task-fresh T L first strict r.scheduler s₁ stored in
        let (s, sent, valid, active, unique, found) =
          add_task_strict T L first r.scheduler none h.valid h.unique a e in
        let is_it : (s ≡ s₁) = same_state (add_task T first strict r.scheduler) sent stored in
        let here = add_task-IsAdded T L first strict r.scheduler s₁ h.valid h.unique stored in
        let (started, kept) = added-lem r first s₁ first.id h here refl in
        let (ended, kept') = Runs-IsRunning run started in
        let known : (T.find second.id (r'.scheduler).tasks_store ≡ some (entity_of first)) =
          ground (
            arith,
            same,
            found first.id,
            is_it,
            kept'.entity first.id (ground (arith, here.active first.id)),
          ) in
        let (s₂, again, valid₂, active₂, unique₂, found₂) =
          add_task_strict T L second
            (record { tasks_store = (r'.scheduler).tasks_store; active_tasks = [] })
            (some (entity_of first)) ended.valid tt refl known in
        (s₂, again, active₂)
