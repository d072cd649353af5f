-- ===== src/Scheduler/Running.antt =====
-- The scheduler as it runs: `Scheduler` of src/common/scheduler with the timers of its tasks, which
-- `activate` of generic_repeated_task.hpp and everydays_at_task.hpp waits for. A task's handler
-- returns, and the clock may show any time then.
pub mod Tasks
pub mod Added
pub mod Laws
use hhctrl_mgmt.Base.{
  ℕ, ◌≡◌, Bool, true, false, Option, none, some, List, [], ◌∷◌, ◌==◌, String, if◌then◌else◌, any_of,
  erase_if, map,
}
use hhctrl_mgmt.Base.Outcome.{done}
use hhctrl_mgmt.Scheduler.TaskStore.{TaskStore}
use hhctrl_mgmt.Scheduler.Tasks.{Task, Duration, ParseTime, expired}
use hhctrl_mgmt.Scheduler.Policy.{Scheduler, Execution, every}

-- The task of this id after its handler, which ended when the clock showed `now`.
abbrev pub run_task : ℕ → ℕ → Task → Task
run_task now id task = if id == task.id then expired now task else task

module _ (T : TaskStore) where
  pub record Running : Type 0 where
    pub scheduler : Scheduler T
    -- The ids of the tasks whose timers are waited for.
    pub waiting : List ℕ

  -- The handler of the timer of the task of this id: with an error it gives the task up, and else the
  -- task runs, its expiry is moved, and the timer is waited for again.
  unfoldable pub timer_handler : (error_code : Bool) (now id : ℕ) → Running → Running
  timer_handler true now id r = record r { waiting = erase_if (λ i. i == id) r.waiting }
  timer_handler false now id r = record r {
    scheduler = record (r.scheduler) {
      active_tasks = map (run_task now id) (r.scheduler).active_tasks;
    };
  }

  -- From the first state to the second: tasks are added, and timers run out or fail, in any order.
  module _ (format : ℕ → String) (name_generator : String → ℕ) (parse_time : ParseTime) where
    pub data Runs (r : Running) : Running → Type 0 where
      start : Runs r r
      added :
          {r₁ : Running} {id : ℕ} {s : Scheduler T} (now : ℕ) (owner : String) (policy : Execution)
          (duration : Duration)
          → Runs r r₁
          → every T format name_generator parse_time now owner policy duration r₁.scheduler
            ≡ done (id, s)
          → Runs r (record { scheduler = s; waiting = id ∷ r₁.waiting })
      timer :
          {r₁ : Running} (error_code : Bool) (now id : ℕ)
          → Runs r r₁
          → any_of (λ i. id == i) r₁.waiting ≡ true
          → Runs r (timer_handler error_code now id r₁)
