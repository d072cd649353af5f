-- ===== src/Examples/Timing.antt =====
-- The scheduler and the pollers at concrete inputs.
use hhctrl_mgmt.Base.{
  ℕ, ◌≡◌, refl, Bool, true, false, not, some, List, [], ◌∷◌, ◌==◌, if◌then◌else◌, arith, ==_iff,
}
use hhctrl_mgmt.Base.Outcome.{done}
use hhctrl_mgmt.Scheduler.TaskStore.{TaskEntity}
use hhctrl_mgmt.Scheduler.Tasks.{Task, days_at, hours}
use hhctrl_mgmt.Scheduler.FileTaskStore.{Json, FileTaskStore, new_store, find, add, file_task_store}
use hhctrl_mgmt.Scheduler.FileTaskStore.Laws.{
  IsSynced, file_task_store-IsTaskStore, find-add-new_store,
}
use hhctrl_mgmt.Scheduler.Policy.{Scheduler, strict, is_task_active, add_task, entity_of}
use hhctrl_mgmt.Scheduler.Policy.Laws.{restored, HasUniqueTasks, add_task_strict}
use hhctrl_mgmt.Device.Registry.{get}
use hhctrl_mgmt.Base.Maps.{lookup}
use hhctrl_mgmt.Poller.Devices.{poll_all}
use hhctrl_mgmt.Poller.Devices.Changes.{poll_all-changes}
use hhctrl_mgmt.Poller.Service.{PollingService}

-- A codec that keeps the list as it is.
abbrev plain : Json
plain = record { Text = List TaskEntity; serialize = λ tasks. tasks; parse = some }

abbrev stored_backup : TaskEntity
stored_backup = record { id = 7; owner = "backup"; timestamp = 1500 }

abbrev one_task : FileTaskStore (List TaskEntity)
one_task = record {
  file = record { content = some (stored_backup ∷ []); readable = true; writable = true };
  cached_tasks = stored_backup ∷ [];
}

abbrev one_task-IsSynced : IsSynced plain (λ tasks. refl) one_task
one_task-IsSynced = record { readable = refl; writable = refl; content = refl; unique = (refl, tt) }

abbrev backup_task : ℕ → Task
backup_task expiry = record { id = 7; owner = "backup"; duration = hours 2; expiry = expiry }

abbrev report_task : Task
report_task = record {
  id = 8;
  owner = "report";
  duration = days_at 1 "06:30:00";
  expiry = 4000000000;
}

abbrev idle : Scheduler (file_task_store plain)
idle = record { tasks_store = one_task; active_tasks = [] }

find-add-new_store_example :
    (s' : FileTaskStore (List TaskEntity)) × (add plain (entity_of report_task) one_task
      ≡ done (tt, s'))
    × IsSynced plain (λ tasks. refl) s'
    × (new_store plain s'.file ≡ done s')
    × (find plain 8 s' ≡ some (entity_of report_task))
unfolding find
find-add-new_store_example =
    find-add-new_store plain (λ tasks. refl) (entity_of report_task) one_task 8 one_task-IsSynced
      refl

-- The stored expiry wins over the new one.
add_task_strict_example :
    (s' : Scheduler (file_task_store plain)) × (add_task
        (file_task_store plain)
        (backup_task 9000000000)
        strict
        idle
      ≡ done (tt, s'))
    × IsSynced plain (λ tasks. refl) s'.tasks_store
    × (s'.active_tasks ≡ restored (some stored_backup) (backup_task 9000000000) ∷ [])
    × HasUniqueTasks s'.active_tasks
    × ((id : ℕ)
        → find plain id s'.tasks_store ≡ (
            if id == 7
            then some (entity_of (restored (some stored_backup) (backup_task 9000000000)))
            else find plain id one_task))
unfolding find file_task_store-IsTaskStore is_task_active
add_task_strict_example =
    add_task_strict (file_task_store plain) (file_task_store-IsTaskStore plain (λ tasks. refl))
      (backup_task 9000000000) idle (some stored_backup) one_task-IsSynced tt refl refl

abbrev sensor : ℕ → List (ℕ × ℕ)
sensor value = (3, value) ∷ []

abbrev differs : ℕ → ℕ → Bool
differs a b = not (a == b)

differs_sound : (a b : ℕ) → differs a b ≡ false → a ≡ b
differs_sound a b = ground (arith, ==_iff a b)

poll_all-changes_example :
    poll_all done differs
      (sensor 20 ∷ sensor 20 ∷ sensor 21 ∷ [])
      (record { device_id = 3; cached = 0; published = [] })
    ≡ done (record { device_id = 3; cached = 21; published = 3 ∷ 3 ∷ [] })
unfolding get lookup
poll_all-changes_example =
    poll_all-changes done differs (record { device_id = 3; cached = 0; published = [] })
      (sensor 20 ∷ sensor 20 ∷ sensor 21 ∷ []) (20 ∷ 20 ∷ 21 ∷ []) differs_sound
      ((20, refl, refl), ((20, refl, refl), ((21, refl, refl), tt)))

abbrev no_pollers : PollingService
no_pollers = record { pollers = []; started = [] }
