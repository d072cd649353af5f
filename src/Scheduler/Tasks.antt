-- ===== src/Scheduler/Tasks.antt =====
-- The tasks of src/common/scheduler: task.hpp, scheduler_durations.hpp, generic_repeated_task.hpp and
-- everydays_at_task.hpp, with the ids of scheduler.hpp and the time stamps of
-- src/common/utils/include/utils/datetime.hpp. A time point is in nanoseconds since the epoch, as
-- `system_clock` counts on Linux. `fmt::format` of a number, the name generator of ids and the parser
-- of a time of day are parameters. A task's handler is left out: what is kept is when it runs.
pub mod Expiry
use Prim.Native.String.{◌++◌}
use hhctrl_mgmt.Base.{
  ℕ, zero, suc, ◌+◌, ◌*◌, ◌/◌, ◌≡◌, ◌≤◌, ◌<◌, refl, Bool, true, false, Option, none, some, List, [],
  ◌∷◌, String, if◌then◌else◌, ltb, arith,
}
use hhctrl_mgmt.Base.Outcome.{Outcome, done, thrown, after}

-- `Precision_t`, a millisecond.
abbrev pub precision : ℕ
precision = 1000000

unfoldable pub from_timestamp : ℕ → ℕ
from_timestamp since_epoch = since_epoch * precision

-- `time_point_cast` rounds toward zero.
unfoldable pub to_timestamp : ℕ → ℕ
to_timestamp src = src / precision

pub data Duration : Type 0 where
  milliseconds seconds minutes hours days : ℕ → Duration
  -- `DaysAt`.
  days_at : (count : ℕ) (at : String) → Duration

unfoldable pub duration_to_str : (ℕ → String) → Duration → String
duration_to_str format (milliseconds n) = "milliseconds_" ++ format n
duration_to_str format (seconds n) = "seconds_" ++ format n
duration_to_str format (minutes n) = "minutes_" ++ format n
duration_to_str format (hours n) = "hours_" ++ format n
duration_to_str format (days n) = "days_" ++ format n
duration_to_str format (days_at n at) = "days_" ++ format n ++ "_AtTime_t_" ++ at

-- `generate_id(owner, duration)`.
unfoldable pub generate_id : (ℕ → String) → (String → ℕ) → String → Duration → ℕ
unfolding duration_to_str
generate_id format name_generator owner duration =
    name_generator (owner ++ duration_to_str format duration)

abbrev pub day : ℕ
day = 86400 * 1000 * precision

-- The length of a duration; of a `DaysAt`, that of its days.
unfoldable pub span : Duration → ℕ
span (milliseconds n) = n * precision
span (seconds n) = n * 1000 * precision
span (minutes n) = n * 60 * 1000 * precision
span (hours n) = n * 3600 * 1000 * precision
span (days n) = n * day
span (days_at n at) = n * day

pub record Task : Type 0 where
  pub id : ℕ
  pub owner : String
  pub duration : Duration
  -- The timer's expiry.
  pub expiry : ℕ

-- `parse_time`: none is a text that does not parse.
abbrev pub ParseTime : Type 0
ParseTime = String → ℕ → Option ℕ

-- The `configure_expiry` of the two kinds of task, when the clock shows `now`.
unfoldable pub configure_expiry : ParseTime → ℕ → Duration → Outcome ℕ
unfolding span
configure_expiry parse_time now (days_at n at) = elim (parse_time at now) [
  | none ↦ thrown
  | some expiry_tp ↦ done (if ltb expiry_tp now then expiry_tp + span (days_at n at) else expiry_tp)
]
configure_expiry parse_time now (milliseconds n) = done (now + span (milliseconds n))
configure_expiry parse_time now (seconds n) = done (now + span (seconds n))
configure_expiry parse_time now (minutes n) = done (now + span (minutes n))
configure_expiry parse_time now (hours n) = done (now + span (hours n))
configure_expiry parse_time now (days n) = done (now + span (days n))

-- The constructors `GenericRepeatedTask` and `EverydayAtTask`.
unfoldable pub new_task : ParseTime → ℕ → ℕ → String → Duration → Outcome Task
unfolding configure_expiry
new_task parse_time now task_id owner duration =
    after (configure_expiry parse_time now duration)
      λ expiry. done (record { id = task_id; owner = owner; duration = duration; expiry = expiry })

unfoldable pub set_expiry : ℕ → Task → Task
set_expiry timepoint task = record task { expiry = timepoint }

-- What the two `activate` do when the timer has run out and the handler has run, which ended when
-- the clock showed `now`: the next expiry.
unfoldable pub expired : ℕ → Task → Task
unfolding span set_expiry
expired now task = elim task.duration [
  | days_at n at ↦ set_expiry (task.expiry + span (days_at n at)) task
  | milliseconds n ↦ set_expiry (now + span (milliseconds n)) task
  | seconds n ↦ set_expiry (now + span (seconds n)) task
  | minutes n ↦ set_expiry (now + span (minutes n)) task
  | hours n ↦ set_expiry (now + span (hours n)) task
  | days n ↦ set_expiry (now + span (days n)) task
]

-- A task that ran once at each of these times.
abbrev pub expired_at : List ℕ → Task → Task
expired_at [] task = task
expired_at (now ∷ later) task = expired_at later (expired now task)
