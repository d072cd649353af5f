-- ===== src/Examples/Schedules.antt =====
-- The scheduler at concrete inputs: tasks that run, and a start of the program after that.
use hhctrl_mgmt.Base.{ℕ, ◌≡◌, refl, true, false, some, List, [], ◌∷◌, String}
use hhctrl_mgmt.Base.Outcome.{done}
use hhctrl_mgmt.Scheduler.TaskStore.{TaskEntity}
use hhctrl_mgmt.Scheduler.Tasks.{
  Task, ParseTime, hours, days_at, set_expiry, from_timestamp, to_timestamp, new_task, generate_id,
  configure_expiry, span, duration_to_str,
}
use hhctrl_mgmt.Scheduler.FileTaskStore.{Json, file_task_store, add, store, load, find, exist}
use hhctrl_mgmt.Scheduler.FileTaskStore.Laws.{file_task_store-IsTaskStore}
use hhctrl_mgmt.Scheduler.Policy.{
  Scheduler, strict, relaxed, is_task_active, add_task, entity_of, every, activate_task,
  process_strict_policy_task, add_task_to_store,
}
use hhctrl_mgmt.Scheduler.Running.{Running, Runs, start, added, timer, timer_handler}
use hhctrl_mgmt.Scheduler.Running.Laws.{IsRunning, IsKept, Runs-IsRunning, run_restart}

abbrev Text : Json
Text = record { Text = List TaskEntity; serialize = λ tasks. tasks; parse = some }

abbrev format : ℕ → String
format n = "2"

abbrev name_generator : String → ℕ
name_generator text = 5

abbrev noon : ParseTime
noon at now = some 43200000000000

-- A store with nothing in it.
abbrev empty : Running (file_task_store Text)
empty = record {
  scheduler = record {
    tasks_store = record {
      file = record { content = some []; readable = true; writable = true };
      cached_tasks = [];
    };
    active_tasks = [];
  };
  waiting = [];
}

abbrev report : Task
report = record { id = 8; owner = "report"; duration = days_at 1 "06:30:00"; expiry = 4000000000 }

-- The report has been added.
abbrev reporting : Scheduler (file_task_store Text)
reporting = record {
  tasks_store = record {
    file = record { content = some (entity_of report ∷ []); readable = true; writable = true };
    cached_tasks = entity_of report ∷ [];
  };
  active_tasks = report ∷ [];
}

abbrev before : Running (file_task_store Text)
before = record { scheduler = reporting; waiting = 8 ∷ [] }

-- A second task has been added.
abbrev two_tasks : Running (file_task_store Text)
two_tasks = record {
  scheduler = record {
    tasks_store = reporting.tasks_store;
    active_tasks =
        report
        ∷ record { id = 5; owner = "backup"; duration = hours 2; expiry = 7200000000007 }
        ∷ [];
  };
  waiting = 5 ∷ 8 ∷ [];
}

abbrev after_run : Running (file_task_store Text)
after_run = timer_handler (file_task_store Text) false 90000000000000 8 two_tasks

ran : Runs (file_task_store Text) format name_generator noon before after_run
unfolding every new_task generate_id configure_expiry span duration_to_str add_task is_task_active
    activate_task
ran = timer false 90000000000000 8 (added 7 "backup" relaxed (hours 2) start refl) refl

empty-IsRunning :
    IsRunning (file_task_store Text) (file_task_store-IsTaskStore Text (λ tasks. refl)) empty
unfolding file_task_store-IsTaskStore
empty-IsRunning = record {
  valid = record { readable = refl; writable = refl; content = refl; unique = tt };
  unique = tt;
  waited = λ i w. absurd (cc w);
}

before-IsRunning :
    IsRunning (file_task_store Text) (file_task_store-IsTaskStore Text (λ tasks. refl)) before
unfolding file_task_store-IsTaskStore
before-IsRunning = record {
  valid = record { readable = refl; writable = refl; content = refl; unique = (refl, tt) };
  unique = (refl, tt);
  waited = λ i w. w;
}

Runs-IsRunning_example :
    IsRunning (file_task_store Text) (file_task_store-IsTaskStore Text (λ tasks. refl)) after_run
    × IsKept
        (file_task_store Text)
        (file_task_store-IsTaskStore Text (λ tasks. refl))
        before
        after_run
Runs-IsRunning_example =
    Runs-IsRunning (file_task_store Text) (file_task_store-IsTaskStore Text (λ tasks. refl)) format
      name_generator noon ran before-IsRunning

report_added : add_task (file_task_store Text) report strict empty.scheduler ≡ done (tt, reporting)
unfolding add_task is_task_active process_strict_policy_task add_task_to_store activate_task add
    store load find exist
report_added = refl

run_restart_example :
    (s₂ : Scheduler (file_task_store Text)) × (add_task
        (file_task_store Text)
        (set_expiry 90000000000000 report)
        strict
        (record { tasks_store = (after_run.scheduler).tasks_store; active_tasks = [] })
      ≡ done (tt, s₂))
    × (s₂.active_tasks
        ≡ set_expiry (from_timestamp (to_timestamp 4000000000)) (set_expiry 90000000000000 report)
          ∷ [])
unfolding find set_expiry
run_restart_example =
    run_restart (file_task_store Text) (file_task_store-IsTaskStore Text (λ tasks. refl)) format
      name_generator noon report (set_expiry 90000000000000 report) empty reporting after_run
      empty-IsRunning refl report_added ran refl
