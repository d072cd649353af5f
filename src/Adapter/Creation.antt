-- ===== src/Adapter/Creation.antt =====
-- The `async_create` of the adapters of src/home_assistant_adapter/device: hatch.cpp and
-- temp_sensor.cpp. `create_entity` makes an entity with its client, as Adapter.Factory does.
use hhctrl_mgmt.Base.{ℕ, Option, none, some, List, [], String, if◌then◌else◌}
use hhctrl_mgmt.Base.Outcome.{Outcome, done, after}
use hhctrl_mgmt.Device.Tree.{Node}
use hhctrl_mgmt.Mqtt.Config.{Config, text, set}
use hhctrl_mgmt.Adapter.Lifecycle.{EntityOps, Adapter, Impl, new_adapter, async_init}
use hhctrl_mgmt.Board.Hardware.{HardwareIdentity}
use hhctrl_mgmt.Adapter.Identity.{DeviceIdentity, identity, get_unique_id}
use hhctrl_mgmt.Adapter.Hatch.{basic_device, hatch_config}

-- `TempSensor::config`.
unfoldable pub sensor_adapter_config : DeviceIdentity → Config
unfolding set
sensor_adapter_config i = set "device" (basic_device i) (
    set "unit_of_measurement" (text "°C")
      (set "device_class" (text "temperature") (set "name" (text "Temp sensor") [])))

-- `TempSensor::state`: `fmt::format("{:.1f}", …)` is a parameter.
unfoldable pub sensor_state : {V : Type 0} → (V → String) → Outcome V → Outcome String
sensor_state format_value value = after value (λ v. done (format_value v))

module _ (E : EntityOps) (create_entity : String → E.State) where
  -- The entity under its id, its adapter, and what its start makes of it.
  unfoldable pub create_adapter : Impl E → String → Outcome (Option (Adapter E))
  unfolding new_adapter async_init
  create_adapter impl uid = after (new_adapter E (create_entity uid)) λ self.
      after (async_init E impl self)
        λ initialized. done (if initialized.0 then some initialized.1 else none)

  -- `Hatch::async_create`.
  unfoldable pub hatch_create :
      (ℕ → String)
      → List (ℕ × HardwareIdentity)
      → List Node
      → Option (Outcome E.EntityState)
      → ℕ
      → Outcome (Option (Adapter E))
  unfolding identity get_unique_id hatch_config create_adapter
  hatch_create format store tree state device_id = after (identity store tree device_id) λ i.
      create_adapter (record { config = hatch_config i; state = state })
        (get_unique_id format device_id i)

  -- `TempSensor::async_create`.
  unfoldable pub sensor_create :
      (ℕ → String)
      → List (ℕ × HardwareIdentity)
      → List Node
      → Option (Outcome E.EntityState)
      → ℕ
      → Outcome (Option (Adapter E))
  unfolding identity get_unique_id sensor_adapter_config create_adapter
  sensor_create format store tree state device_id = after (identity store tree device_id) λ i.
      create_adapter (record { config = sensor_adapter_config i; state = state })
        (get_unique_id format device_id i)
