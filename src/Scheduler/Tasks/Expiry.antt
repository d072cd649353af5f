-- ===== src/Scheduler/Tasks/Expiry.antt =====
-- When the tasks run next.
use hhctrl_mgmt.Base.{
  ℕ, ◌+◌, ◌*◌, ◌≡◌, ◌≤◌, ◌<◌, refl, some, List, [], ◌∷◌, String, if◌then◌else◌, ltb, arith, length,
}
use hhctrl_mgmt.Base.Outcome.{done}
use hhctrl_mgmt.Scheduler.Tasks.{
  Task, days_at, span, set_expiry, expired, expired_at, ParseTime, configure_expiry, day,
  to_timestamp, from_timestamp,
}

expired_everyday :
    (now : ℕ) (task : Task) (count : ℕ) (at : String)
    → task.duration ≡ days_at count at
    → expired now task ≡ record task { expiry = task.expiry + count * day }
unfolding expired span set_expiry
expired_everyday now task count at d = simp (expired, d) refl

-- A task that runs every so many days at a time keeps to that time: after any runs, however late they
-- ended, its expiry is the first one and as many periods.
everyday_expiry :
    (times : List ℕ) (task : Task) (count : ℕ) (at : String)
    → task.duration ≡ days_at count at
    → (expired_at times task).expiry ≡ task.expiry + length times * (count * day)
unfolding expired span set_expiry
everyday_expiry [] task count at d = omega arith
everyday_expiry (now ∷ times) task count at d =
    rw (expired_at, expired_everyday now task count at d)
      (grind (
        arith,
        everyday_expiry times (record task { expiry = task.expiry + count * day }) count at d,
      ))

-- A new task at a time of day that parses, counted in at least one day, runs at the first moment from
-- now on that shows that time, today or a period later, if the time parsed is less than a period ago.
pub configure_expiry_everyday :
    (parse_time : ParseTime) (now tp count : ℕ) (at : String)
    → parse_time at now ≡ some tp
    → now ≤ tp + count * day
    → (expiry : ℕ) × (configure_expiry parse_time now (days_at count at) ≡ done expiry)
      × (now ≤ expiry)
      × (expiry ≡ (if ltb tp now then tp + count * day else tp))
unfolding configure_expiry span
configure_expiry_everyday parse_time now tp count at p h =
    (_, simp (configure_expiry, p) refl, ground (arith, h), refl)

-- A time stamp that the store keeps comes back as it was, and the expiry of a task that goes through
-- the store comes back at most a millisecond early.
pub timestamp_roundtrip :
    (n t : ℕ)
    → (to_timestamp (from_timestamp n) ≡ n)
      × (from_timestamp (to_timestamp t) ≤ t)
      × (t < from_timestamp (to_timestamp t) + 1000000)
unfolding to_timestamp from_timestamp
timestamp_roundtrip n t = (omega arith, omega arith, omega arith)
