-- ===== src/Scheduler/Running/Tasks.antt =====
-- The tasks keep their ids as they run.
use hhctrl_mgmt.Base.{
  ℕ, ◌≡◌, refl, true, List, [], ◌∷◌, ◌++◌, ◌==◌, String, if◌then◌else◌, arith, any_of, erase_if,
  map,
}
use hhctrl_mgmt.Scheduler.Tasks.{
  Task, Duration, milliseconds, seconds, minutes, hours, days, days_at, expired, set_expiry,
}
use hhctrl_mgmt.Scheduler.Policy.{is_active}
use hhctrl_mgmt.Scheduler.Policy.Laws.{HasUniqueTasks}
use hhctrl_mgmt.Scheduler.Running.{run_task}

expired-id :
    (now id : ℕ) (owner : String) (duration : Duration) (expiry : ℕ)
    → (expired now (record { id = id; owner = owner; duration = duration; expiry = expiry })).id
      ≡ id
unfolding expired set_expiry
expired-id now id owner (milliseconds n) expiry = refl
expired-id now id owner (seconds n) expiry = refl
expired-id now id owner (minutes n) expiry = refl
expired-id now id owner (hours n) expiry = refl
expired-id now id owner (days n) expiry = refl
expired-id now id owner (days_at n at) expiry = refl

pub run_task-id : (now id : ℕ) (task : Task) → (run_task now id task).id ≡ task.id
run_task-id now id task =
    ground (arith, expired-id now task.id task.owner task.duration task.expiry)

pub is_active-run_task :
    (now id i : ℕ) (tasks : List Task)
    → is_active i (map (run_task now id) tasks) ≡ is_active i tasks
is_active-run_task now id i [] = refl
is_active-run_task now id i (t ∷ ts) =
    rw (run_task-id now id t, is_active-run_task now id i ts) refl

pub HasUniqueTasks-run_task :
    (now id : ℕ) (tasks : List Task)
    → HasUniqueTasks tasks
    → HasUniqueTasks (map (run_task now id) tasks)
HasUniqueTasks-run_task now id [] u = tt
HasUniqueTasks-run_task now id (t ∷ ts) u = (
  rw (run_task-id now id t, is_active-run_task now id t.id ts) (u.0),
  HasUniqueTasks-run_task now id ts u.1,
)

pub is_active-added :
    (i : ℕ) (t : Task) (ts : List Task)
    → is_active i (ts ++ (t ∷ [])) ≡ (if i == t.id then true else is_active i ts)
is_active-added i t [] = refl
is_active-added i t (u ∷ ts) = ground (arith, is_active-added i t ts)

pub any_of-erase_if :
    (i id : ℕ) (ids : List ℕ)
    → any_of (λ j. i == j) (erase_if (λ j. j == id) ids) ≡ true
    → any_of (λ j. i == j) ids ≡ true
any_of-erase_if i id [] h = h
any_of-erase_if i id (j ∷ ids) h = ground (arith, h, any_of-erase_if i id ids)
