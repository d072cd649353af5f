-- ===== src/Adapter/Handlers.antt =====
-- src/home_assistant_adapter/event: hatch_event_handler.cpp, temp_sensor_event_handler.cpp and
-- main_board_event_handler.cpp. `create` is the device's `async_create`, `sync` its
-- `async_sync_state`. A device whose `async_run` was spawned is in `running`.
pub mod Laws
use hhctrl_mgmt.Base.{
  ℕ, ◌≡◌, Bool, true, false, not, Option, none, some, List, [], ◌∷◌, ◌++◌, ◌==◌, if◌then◌else◌,
  find_if, erase_if, count_if, any_of, is_some,
}
use hhctrl_mgmt.Base.Outcome.{Outcome, done, thrown, after}

-- `device_id` of a device is its `hardware_id`.
pub record Held (A : Type 0) : Type 0 where
  pub device_id : ℕ
  pub adapter : A

pub record Handler (A : Type 0) : Type 0 where
  pub devices : List (Held A)
  pub running : List ℕ

module _ {A : Type 0} where
  abbrev pub is_device : ℕ → Held A → Bool
  is_device device_id held = device_id == held.device_id

  -- `co_await async_sync_state` of the first device found.
  abbrev pub sync_first : (A → Outcome A) → ℕ → List (Held A) → Outcome (List (Held A))
  sync_first sync device_id [] = done []
  sync_first sync device_id (held ∷ later) =
      let rest = after (sync_first sync device_id later) (λ ds. done (held ∷ ds)) in
      if is_device device_id held
      then after (sync held.adapter) (λ a. done (record held { adapter = a } ∷ later))
      else rest

  -- `HatchEventHandler::operator()(DeviceCreated_t)`.
  unfoldable pub hatch_created : (ℕ → Outcome (Option A)) → ℕ → Handler A → Outcome (Handler A)
  hatch_created create device_id h = after (create device_id) λ hatch. elim hatch [
    | none ↦ done h
    | some a ↦ done (record {
      devices = h.devices ++ (record { device_id = device_id; adapter = a } ∷ []);
      running = h.running ++ (device_id ∷ []);
    })
  ]

  -- `HatchEventHandler::operator()(DeviceRemoved_t)`.
  unfoldable pub hatch_removed : ℕ → Handler A → Outcome (Handler A)
  hatch_removed device_id h =
      if count_if (is_device device_id) h.devices == 0
      then thrown
      else done (record h { devices = erase_if (is_device device_id) h.devices })

  -- `HatchEventHandler::operator()(DeviceStateChanged_t)`.
  unfoldable pub hatch_state_changed : (A → Outcome A) → ℕ → Handler A → Outcome (Handler A)
  hatch_state_changed sync device_id h =
      after (sync_first sync device_id h.devices) (λ ds. done (record h { devices = ds }))

  -- `TempSensorEventHandler::operator()(DeviceCreated_t)`.
  unfoldable pub sensor_created : (ℕ → Outcome (Option A)) → ℕ → Handler A → Outcome (Handler A)
  sensor_created create device_id h = after (create device_id) λ temp_sensor. elim temp_sensor [
    | none ↦ done h
    | some a ↦ done (record {
      devices = h.devices ++ (record { device_id = device_id; adapter = a } ∷ []);
      running = h.running ++ (device_id ∷ []);
    })
  ]

  -- `TempSensorEventHandler::operator()(DeviceRemoved_t)`: a device that is not there is only logged.
  unfoldable pub sensor_removed : ℕ → Handler A → Outcome (Handler A)
  sensor_removed device_id h =
      done (record h { devices = erase_if (is_device device_id) h.devices })

  -- `TempSensorEventHandler::operator()(DeviceStateChanged_t)`.
  unfoldable pub sensor_state_changed : (A → Outcome A) → ℕ → Handler A → Outcome (Handler A)
  sensor_state_changed sync device_id h =
      after (sync_first sync device_id h.devices) (λ ds. done (record h { devices = ds }))

  -- `MainBoardEventHandler::operator()(DeviceCreated_t)`, on the one board that it may hold, without the
  -- board's run loops. Its handler of `DeviceRemoved_t` does nothing.
  unfoldable pub board_created : (ℕ → Outcome (Option A)) → ℕ → Option A → Outcome (Option A)
  board_created create device_id (some device) = thrown
  board_created create device_id none =
      after (create device_id)
        λ device. elim device [ none ↦ thrown | some board ↦ done (some board) ]

  -- `MainBoardEventHandler::operator()(DeviceStateChanged_t)`.
  unfoldable pub board_state_changed : (A → Outcome A) → Option A → Outcome (Option A)
  board_state_changed sync none = done none
  board_state_changed sync (some board) = after (sync board) (λ a. done (some a))
