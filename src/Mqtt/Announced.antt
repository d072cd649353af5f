-- ===== src/Mqtt/Announced.antt =====
-- What a sensor, a binary sensor and a button announce in their configuration, and the topics and
-- payloads they then use.
use hhctrl_mgmt.Base.{ℕ, ◌≡◌, refl, some, String, str_eq, if◌then◌else◌, arith, eq_iff}
use hhctrl_mgmt.Base.Outcome.{done}
use hhctrl_mgmt.Mqtt.Error.{value, unexpected, fault, unknown_packet}
use hhctrl_mgmt.Mqtt.Packet.{Publish, Pubopts}
use hhctrl_mgmt.Mqtt.Config.{text, Config, lookup, config_laws}
use hhctrl_mgmt.Mqtt.Entity.{EntityClient, Entity, topic, async_publish, async_receive}
use hhctrl_mgmt.Mqtt.Sensor.{sensor_config, sensor_set_state}
use hhctrl_mgmt.Mqtt.BinarySensor.{
  BinarySensorState, off, on, binary_sensor_config, binary_sensor_set_state,
}
use hhctrl_mgmt.Mqtt.Button.{button_config, button_receive, press}

abbrev pub binary_key : BinarySensorState → String
binary_key off = "payload_off"
binary_key on = "payload_on"

module _ (C : EntityClient) where
  -- A sensor's state is published as it is, on the topic that its configuration names for it, under
  -- any configuration that is passed in.
  pub sensor_state_announced :
      (e : Entity (C.State)) (config : Config) (state : String) (opts : Pubopts)
      → (full : Config) × (destination : String) × (sensor_config e config ≡ done full)
        × (lookup "state_topic" full ≡ some (text destination))
        × (sensor_set_state C state opts e ≡ async_publish C destination state opts e)
  unfolding sensor_config sensor_set_state
  sensor_state_announced e config state opts =
      (_, topic e "state", refl, simp config_laws refl, refl)

  -- A binary sensor's state is published on the topic that its configuration names for it, as the
  -- payload that its configuration names for that state, under any configuration that is passed in.
  binary_sensor_state_announced :
      (e : Entity (C.State)) (config : Config) (state : BinarySensorState) (opts : Pubopts)
      → (full : Config) × (destination : String) × (payload : String) × (binary_sensor_config e
            config
          ≡ done full)
        × (lookup "state_topic" full ≡ some (text destination))
        × (lookup (binary_key state) full ≡ some (text payload))
        × (binary_sensor_set_state C state opts e ≡ async_publish C destination payload opts e)
  unfolding binary_sensor_config binary_sensor_set_state
  binary_sensor_state_announced e config off opts =
      (_, topic e "state", "off", refl, simp config_laws refl, simp config_laws refl, refl)
  binary_sensor_state_announced e config on opts =
      (_, topic e "state", "on", refl, simp config_laws refl, simp config_laws refl, refl)

  -- A button announces one payload for being pressed, under any configuration that is passed in. Of
  -- the packets that it receives, those with this payload are a press, and all others give the error
  -- `unknown_packet`.
  button_press_announced :
      (rounds : ℕ) (e e' : Entity (C.State)) (config : Config) (m : Publish)
      → async_receive C rounds e ≡ done (value m, e')
      → (full : Config) × (payload : String) × (button_config e config ≡ done full)
        × (lookup "payload_press" full ≡ some (text payload))
        × (button_receive C rounds e ≡ (
            if str_eq m.payload payload
            then done (value press, e')
            else done (unexpected (fault unknown_packet ""), e')))
  unfolding button_config button_receive
  button_press_announced rounds e e' config m r =
      (_, "press", refl, simp config_laws refl, rw r (ground (arith, eq_iff m.payload "press")))
