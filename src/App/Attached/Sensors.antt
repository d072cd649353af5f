-- ===== src/App/Attached/Sensors.antt =====
-- What a temperature sensor that was created shows from then on.
use hhctrl_mgmt.Base.{ℕ, ◌≡◌, Bool, false, Option, some, List, [], ◌∷◌, ◌++◌, All, String}
use hhctrl_mgmt.Base.Outcome.{Outcome, done, after}
use hhctrl_mgmt.Platform.{DeviceType}
use hhctrl_mgmt.Board.Sensors.{TempSensor, sensor_value}
use hhctrl_mgmt.Mqtt.Config.{Config}
use hhctrl_mgmt.Mqtt.Entity.{EntityClient}
use hhctrl_mgmt.Poller.Devices.{Poller, temp_current}
use hhctrl_mgmt.Adapter.Handlers.{Handler, is_device}
use hhctrl_mgmt.Adapter.Sensor.{SensorAdapter, sync_sensor, shown_value, sync_sensor-shown}
use hhctrl_mgmt.App.HomeAssistant.{EventType, created, home_assistant_init}
use hhctrl_mgmt.App.HomeAssistant.Laws.{AreDistinct}
use hhctrl_mgmt.App.Attached.{sensors, send, poll_rounds}
use hhctrl_mgmt.App.Attached.Laws.{sync_at, Reads, shown_changes, seen, device_life}

-- The parameters of `sensor_value` stand for the library's reading of numbers.
module _ {V : Type 0} (stof : String → Outcome V) (per_mille : V → V) (zero : V)
    (behind : String → Option String) (differs : V → V → Bool) (format_value : V → String)
    (C : EntityClient) (rounds : ℕ) (serialize : Config → String) (config : Config)
    (ids : EventType → DeviceType → ℕ) where
  abbrev pub read : TempSensor → Outcome V
  read = sensor_value stof per_mille zero behind

  abbrev pub Shows : Type 0
  Shows = SensorAdapter C rounds serialize read format_value

  -- The `async_sync_state` of a sensor's adapter, on the inventory of sensors as it is.
  abbrev pub sync_sensor_at : List (ℕ × TempSensor) → ℕ → Shows → Outcome Shows
  sync_sensor_at = sync_at (sync_sensor C rounds serialize read format_value config)

  module _ (create : ℕ → Outcome (Option Shows)) (moved : Outcome (Handler Shows)) where
    -- Event ids are distinct, the handler of sensor events, subscribed as at the start, holds no adapter
    -- for the sensor, and one can be created: on the event that the sensor was created and the polls
    -- that follow, at each of which it is in the inventory and its temperature can be read, the
    -- temperatures that differ from the last one that the poller remembers are published in order on
    -- the topic of the sensor's state, each before the next poll, and no other. If that returns, the
    -- adapter is held behind the others, which stay as they are, its run loop is started, and the bus
    -- is as it was.
    pub sensor_life :
        (h : Handler Shows) (id : ℕ) (a : Shows) (devices : List (ℕ × TempSensor))
        (readings : List (List (ℕ × TempSensor))) (vs : List V) (p : Poller V)
        → AreDistinct ids
        → All (λ x. is_device id x ≡ false) h.devices
        → create id ≡ done (some a)
        → p.device_id ≡ id
        → Reads read id readings vs
        → after
            (send sensors ids create moved
              (sync_sensor_at devices)
              created
              id
              (record { bus = home_assistant_init ids []; handler = h }))
            (λ t.
              poll_rounds sensors ids create moved
                (temp_current read)
                differs
                sync_sensor_at
                readings
                (p, t))
          ≡ after
              (shown_changes
                (λ v. v)
                differs
                (shown_value C rounds serialize read format_value)
                p.cached
                vs
                a)
              (λ b. done (
                seen (λ v. v) differs vs p,
                record {
                  bus = home_assistant_init ids [];
                  handler = record {
                    devices = h.devices ++ record { device_id = id; adapter = b } ∷ [];
                    running = h.running ++ id ∷ [];
                  };
                },
              ))
    unfolding temp_current
    sensor_life =
        device_life sensors ids create moved read (λ v. v) (temp_current read) differs
          (sync_sensor C rounds serialize read format_value config)
          (shown_value C rounds serialize read format_value) (λ sensor v known. known)
          (λ sensor v a known.
            sync_sensor-shown C rounds serialize read format_value config sensor v a known)
