-- ===== src/Examples/Lives.antt =====
-- A hatch and a temperature sensor from their creation on, at concrete inputs.
use hhctrl_mgmt.Base.{
  ℕ, ◌+◌, ◌*◌, ◌≡◌, refl, Bool, not, Option, none, some, String, str_eq, if◌then◌else◌, List, [],
  ◌∷◌, ◌==◌, arith,
}
use hhctrl_mgmt.Base.Outcome.{Outcome, done, thrown, stuck, after}
use hhctrl_mgmt.Base.Maps.{lookup}
use hhctrl_mgmt.Platform.{DeviceType}
use hhctrl_mgmt.Device.Registry.{get}
use hhctrl_mgmt.Utils.StaticMap.{at_value}
use hhctrl_mgmt.Poller.Devices.{Poller, hatch_current, temp_current, update}
use hhctrl_mgmt.Adapter.Handlers.{Handler}
use hhctrl_mgmt.Adapter.Hatch.{
  HatchState, undefined, open_state, closed, changing_position, faulty, SysfsHatch, status,
}
use hhctrl_mgmt.Adapter.Hatch.Changes.{HatchAdapter, shown}
use hhctrl_mgmt.App.HomeAssistant.{EventType, created, handler_of, home_assistant_init}
use hhctrl_mgmt.App.HomeAssistant.Laws.{AreDistinct, kind_code}
use hhctrl_mgmt.App.Attached.{hatches, sensors, send, poll_rounds}
use hhctrl_mgmt.App.Attached.Laws.{shown_changes}
use hhctrl_mgmt.App.Attached.Hatches.{sync_hatch_at, hatch_life}
use hhctrl_mgmt.App.Attached.Sensors.{Shows, sync_sensor_at, sensor_life}
use hhctrl_mgmt.Board.Sensors.{
  TempSensor, ds18b20, cpu_temp_sensor, sensor_value, cpu_temp_value, read_attr, read_words,
}
use hhctrl_mgmt.Adapter.Sensor.{shown_value}
use hhctrl_mgmt.Examples.Entities.{
  entity_client, entity, shut_hatch, cover_with, held_at, hatch_poller,
}

abbrev ids : EventType → DeviceType → ℕ
ids k t = kind_code k * 3 + handler_of t

ids-AreDistinct : AreDistinct ids
ids-AreDistinct j k t u = ground arith

abbrev hash_of : HatchState → ℕ
hash_of closed = 3
hash_of open_state = 4
hash_of undefined = 5
hash_of changing_position = 6
hash_of faulty = 7

abbrev differs : ℕ → ℕ → Bool
differs a b = not (a == b)

abbrev create : ℕ → Outcome (Option (HatchAdapter entity_client 3 (λ c. "{}")))
create device_id = done (some (cover_with []))

abbrev holding : Handler (HatchAdapter entity_client 3 (λ c. "{}"))
holding = record { devices = held_at 7 ∷ []; running = 7 ∷ [] }

abbrev shut_then_open : List (List (ℕ × SysfsHatch))
shut_then_open =
    ((2, shut_hatch) ∷ [])
    ∷ ((2, shut_hatch) ∷ [])
    ∷ ((2, record shut_hatch { status_attr = some "open" }) ∷ [])
    ∷ []

hatch_life_example :
    after
      (send hatches ids create stuck
        (sync_hatch_at entity_client 3 (λ c. "{}") [] ids create stuck hash_of differs [])
        created
        2
        (record { bus = home_assistant_init ids []; handler = holding }))
      (λ t.
        poll_rounds hatches ids create stuck
          (hatch_current status hash_of)
          differs
          (sync_hatch_at entity_client 3 (λ c. "{}") [] ids create stuck hash_of differs)
          shut_then_open
          (hatch_poller, t))
    ≡ after
        (shown_changes hash_of differs
          (shown entity_client 3 (λ c. "{}"))
          0
          (closed ∷ closed ∷ open_state ∷ [])
          (cover_with []))
        (λ b. done (
          record { device_id = 2; cached = 4; published = 2 ∷ 2 ∷ [] },
          record {
            bus = home_assistant_init ids [];
            handler = record {
              devices = held_at 7 ∷ record { device_id = 2; adapter = b } ∷ [];
              running = 7 ∷ 2 ∷ [];
            };
          },
        ))
unfolding status at_value get lookup update
hatch_life_example =
    hatch_life entity_client 3 (λ c. "{}") [] ids create stuck hash_of differs holding 2
      (cover_with []) [] shut_then_open (closed ∷ closed ∷ open_state ∷ []) hatch_poller
      ids-AreDistinct (refl, tt) refl refl
      ((_, refl, refl), ((_, refl, refl), ((_, refl, refl), tt)))

-- Numbers of up to two readings.
abbrev stof : String → Outcome ℕ
stof text =
    if str_eq text "21500" then done 21500 else if str_eq text "22000" then done 22000 else thrown

abbrev behind : String → Option String
behind text = if str_eq text "t=22000" then some "22000" else none

abbrev celsius : ℕ → String
celsius v = if v == 21500 then "21.5" else "22.0"

abbrev Shown : Type 0
Shown = Shows stof (λ v. v) 0 behind differs celsius entity_client 3 (λ c. "{}") [] ids

abbrev sensor_with : Shown
sensor_with = record { entity = entity []; waited = [] }

abbrev create_sensor : ℕ → Outcome (Option Shown)
create_sensor device_id = done (some sensor_with)

-- A sensor of the processor that warms up, beside a DS18B20.
abbrev at_temperature : String → List (ℕ × TempSensor)
at_temperature text =
    (2, cpu_temp_sensor (some (text ∷ []))) ∷ (3, ds18b20 (some ("YES" ∷ "t=22000" ∷ []))) ∷ []

abbrev warming : List (List (ℕ × TempSensor))
warming = at_temperature "21500" ∷ at_temperature "21500" ∷ at_temperature "22000" ∷ []

abbrev sensor_poller : Poller ℕ
sensor_poller = record { device_id = 2; cached = 0; published = [] }

abbrev sync_shown : List (ℕ × TempSensor) → ℕ → Shown → Outcome Shown
sync_shown =
    sync_sensor_at stof (λ v. v) 0 behind differs celsius entity_client 3 (λ c. "{}") [] ids

sensor_life_example :
    after
      (send sensors ids create_sensor stuck (sync_shown []) created 2 (record {
        bus = home_assistant_init ids [];
        handler = record { devices = []; running = [] };
      }))
      (λ t.
        poll_rounds sensors ids create_sensor stuck
          (temp_current (sensor_value stof (λ v. v) 0 behind))
          differs
          sync_shown
          warming
          (sensor_poller, t))
    ≡ after
        (shown_changes
          (λ v. v)
          differs
          (shown_value entity_client 3 (λ c. "{}") (sensor_value stof (λ v. v) 0 behind) celsius)
          0
          (21500 ∷ 21500 ∷ 22000 ∷ [])
          sensor_with)
        (λ b. done (
          record { device_id = 2; cached = 22000; published = 2 ∷ 2 ∷ [] },
          record {
            bus = home_assistant_init ids [];
            handler = record {
              devices = record { device_id = 2; adapter = b } ∷ [];
              running = 2 ∷ [];
            };
          },
        ))
unfolding get lookup update sensor_value cpu_temp_value read_attr read_words
sensor_life_example =
    sensor_life stof (λ v. v) 0 behind differs celsius entity_client 3 (λ c. "{}") [] ids
      create_sensor stuck (record { devices = []; running = [] }) 2 sensor_with [] warming
      (21500 ∷ 21500 ∷ 22000 ∷ []) sensor_poller ids-AreDistinct tt refl refl
      ((_, refl, refl), ((_, refl, refl), ((_, refl, refl), tt)))
