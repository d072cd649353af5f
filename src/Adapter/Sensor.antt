-- ===== src/Adapter/Sensor.antt =====
-- The adapter of a temperature sensor: `TempSensor` of src/home_assistant_adapter/device/temp_sensor.cpp
-- over the sensor of src/home_assistant_v2/include/home_assistant/mqtt/sensor.hpp.
use hhctrl_mgmt.Base.{ℕ, ◌≡◌, refl, none, some, String}
use hhctrl_mgmt.Base.Outcome.{Outcome, done, after, after-after, ◌>>=◌, pure}
use hhctrl_mgmt.Utils.StaticMap.{at_key}
use hhctrl_mgmt.Mqtt.Error.{value, unexpected}
use hhctrl_mgmt.Mqtt.Config.{Config}
use hhctrl_mgmt.Mqtt.Entity.{
  EntityClient, Entity, topic, availability_topic, set_will, async_connect, async_set_availability,
  async_publish,
}
use hhctrl_mgmt.Mqtt.Sensor.{sensor_configure, sensor_set_state, sensor_receive}
use hhctrl_mgmt.Adapter.Lifecycle.{EntityOps, Adapter, default_pubopts, async_sync_state}
use hhctrl_mgmt.Adapter.Creation.{sensor_state}

-- A sensor receives nothing: what its `async_receive` gives is an error, or none.
abbrev pub sensor_ops : EntityClient → ℕ → (Config → String) → EntityOps
sensor_ops C rounds serialize = record {
  State = Entity (C.State);
  Value = Unit {0};
  EntityState = String;
  availability = λ e. topic e availability_topic;
  set_will = set_will C;
  async_connect = async_connect C;
  async_configure = sensor_configure C serialize;
  async_set_availability = async_set_availability C;
  async_set_state = sensor_set_state C;
  async_receive = do
    error ← sensor_receive C rounds
    elim error [ some f ↦ pure (unexpected f) | none ↦ pure (value tt) ];
}

module _ (C : EntityClient) (rounds : ℕ) (serialize : Config → String) {D V : Type 0}
    (read : D → Outcome V) (format_value : V → String) where
  abbrev pub SensorAdapter : Type 0
  SensorAdapter = Adapter (sensor_ops C rounds serialize)

  -- `async_sync_state` of the adapter of a sensor, as the handler calls it.
  abbrev pub sync_sensor : Config → D → SensorAdapter → Outcome SensorAdapter
  sync_sensor config sensor a =
      after
        (async_sync_state (sensor_ops C rounds serialize)
          (record { config = config; state = some (sensor_state format_value (read sensor)) }) a)
        (λ r. done r.1)

  -- The temperature is published, retained, on the topic of the sensor's state.
  abbrev pub shown_value : V → SensorAdapter → Outcome SensorAdapter
  shown_value v a =
      after (async_publish C (topic a.entity "state") (format_value v) default_pubopts a.entity)
        (λ r. done (record a { entity = r.1 }))

  pub sync_sensor-shown :
      (config : Config) (sensor : D) (v : V) (a : SensorAdapter)
      → read sensor ≡ done v
      → sync_sensor config sensor a ≡ shown_value v a
  unfolding async_sync_state sensor_state sensor_set_state at_key
  sync_sensor-shown config sensor v a known =
      simp (async_sync_state, sensor_state, known, sensor_set_state, after-after) refl
