-- ===== src/Adapter/Factory/Laws.antt =====
-- What the broker and Home Assistant are told of an entity that the factory makes.
use hhctrl_mgmt.Base.{ℕ, ◌≡◌, refl, true, some, String}
use hhctrl_mgmt.Base.Outcome.{done}
use hhctrl_mgmt.Mqtt.Packet.{Pubopts, Will, at_most_once, connect_packet}
use hhctrl_mgmt.Mqtt.Config.{text, Config, lookup, config_laws}
use hhctrl_mgmt.Mqtt.Client.{
  Endpoint, Client, credential, on_net, async_send_con, new_client, set_will,
}
use hhctrl_mgmt.Mqtt.Bound.{BrokerConfig, create_client, mqtt_client}
use hhctrl_mgmt.Mqtt.Entity.{
  Entity, availability_topic, online, new_entity, set_will as entity_set_will, async_publish,
  async_set_availability,
}
use hhctrl_mgmt.Mqtt.Cover.{new_cover, cover_config}
use hhctrl_mgmt.Mqtt.Button.{new_button, button_config}
use hhctrl_mgmt.Mqtt.Sensor.{new_sensor, sensor_config}
use hhctrl_mgmt.Mqtt.BinarySensor.{new_binary_sensor, binary_sensor_config}
use hhctrl_mgmt.Utils.StaticMap.{at_key}
use hhctrl_mgmt.Utils.Mapper.{map_key}
use hhctrl_mgmt.Adapter.Lifecycle.{new_adapter}
use hhctrl_mgmt.Adapter.Factory.{
  EntityKind, cover, binary_sensor, button, sensor, announced_config, create_cover,
  create_binary_sensor, create_button, create_sensor, adapted,
}

module _ (E : Endpoint) (rounds fuel : ℕ) (broker : BrokerConfig) (net : E.Net) where
  -- An entity of any kind that the factory makes under an id, in its adapter: its client connects with a
  -- clean session under this id, with the broker's keep-alive interval and credentials, and with a
  -- retained will that says "offline". The configuration that the entity announces, whatever it is
  -- made from, names the topic of that will for its availability, and when the entity is available
  -- it publishes "online" on this very topic.
  pub adapted-availability :
      (serialize : Config → String) (kind : EntityKind) (unique_id : String) (config : Config)
      (opts : Pubopts)
      → (e : Entity (Client (E.Net))) × (will : Will) × (full : Config) × (adapted E rounds fuel
            broker net serialize kind unique_id
          ≡ done e)
        × (will.message ≡ "offline")
        × (will.pubopts ≡ record { qos = at_most_once; retain = true })
        × (async_send_con E e.client
            ≡ on_net E
                (E.send (
                  connect_packet true broker.keep_alive_interval unique_id
                    (some will)
                    (credential broker.username)
                    (credential broker.password)))
                e.client)
        × (announced_config kind e config ≡ done full)
        × (lookup availability_topic full ≡ some (text will.topic))
        × (async_set_availability (mqtt_client E rounds fuel) online opts e
            ≡ async_publish (mqtt_client E rounds fuel) will.topic "online" opts e)
  unfolding adapted create_cover create_binary_sensor create_button create_sensor create_client
      new_client new_cover new_binary_sensor new_button new_sensor new_entity new_adapter
      entity_set_will set_will cover_config binary_sensor_config button_config sensor_config at_key
      map_key async_send_con async_set_availability
  adapted-availability serialize cover unique_id config opts =
      (_, _, _, refl, refl, refl, refl, refl, simp config_laws refl, refl)
  adapted-availability serialize binary_sensor unique_id config opts =
      (_, _, _, refl, refl, refl, refl, refl, simp config_laws refl, refl)
  adapted-availability serialize button unique_id config opts =
      (_, _, _, refl, refl, refl, refl, refl, simp config_laws refl, refl)
  adapted-availability serialize sensor unique_id config opts =
      (_, _, _, refl, refl, refl, refl, refl, simp config_laws refl, refl)
