-- ===== src/Adapter/Factory.antt =====
-- `EntityFactory` of src/home_assistant_adapter/include/home_assistant/entity_factory.hpp, and the adapters
-- of the entities that it makes.
pub mod Laws
use hhctrl_mgmt.Base.{ℕ, none, some, String}
use hhctrl_mgmt.Base.Outcome.{Outcome, done, after, ◌>>=◌, pure}
use hhctrl_mgmt.Mqtt.Error.{value, unexpected}
use hhctrl_mgmt.Mqtt.Config.{Config}
use hhctrl_mgmt.Mqtt.Client.{Endpoint, Client}
use hhctrl_mgmt.Mqtt.Bound.{BrokerConfig, create_client, mqtt_client}
use hhctrl_mgmt.Mqtt.Entity.{
  EntityClient, Entity, topic, availability_topic, set_will, async_connect, async_set_availability,
}
use hhctrl_mgmt.Mqtt.Cover.{new_cover, cover_config}
use hhctrl_mgmt.Mqtt.Button.{new_button, button_config}
use hhctrl_mgmt.Mqtt.Sensor.{new_sensor, sensor_config}
use hhctrl_mgmt.Mqtt.BinarySensor.{
  BinarySensorState, new_binary_sensor, binary_sensor_config, binary_sensor_configure,
  binary_sensor_set_state, binary_sensor_receive,
}
use hhctrl_mgmt.Adapter.Lifecycle.{EntityOps, new_adapter}
use hhctrl_mgmt.Adapter.Hatch.Rounds.{cover_ops}
use hhctrl_mgmt.Adapter.Sensor.{sensor_ops}
use hhctrl_mgmt.Adapter.MainBoard.Running.{button_ops}

-- A binary sensor receives nothing, like a sensor.
abbrev pub binary_sensor_ops : EntityClient → ℕ → (Config → String) → EntityOps
binary_sensor_ops C rounds serialize = record {
  State = Entity (C.State);
  Value = Unit {0};
  EntityState = BinarySensorState;
  availability = λ e. topic e availability_topic;
  set_will = set_will C;
  async_connect = async_connect C;
  async_configure = binary_sensor_configure C serialize;
  async_set_availability = async_set_availability C;
  async_set_state = binary_sensor_set_state C;
  async_receive = do
    error ← binary_sensor_receive C rounds
    elim error [ some f ↦ pure (unexpected f) | none ↦ pure (value tt) ];
}

pub data EntityKind : Type 0 where
  cover binary_sensor button sensor : EntityKind

-- The configuration that an entity of this kind announces.
abbrev pub announced_config : {S : Type 0} → EntityKind → Entity S → Config → Outcome Config
announced_config cover e config = cover_config e config
announced_config binary_sensor e config = binary_sensor_config e config
announced_config button e config = button_config e config
announced_config sensor e config = sensor_config e config

-- Each client has an endpoint of its own, in the state `net` at first.
module _ (E : Endpoint) (rounds fuel : ℕ) (config : BrokerConfig) (net : E.Net) where
  abbrev pub bound : EntityClient
  bound = mqtt_client E rounds fuel

  unfoldable pub create_cover : String → Entity (Client (E.Net))
  unfolding create_client new_cover
  create_cover unique_id = new_cover bound unique_id (create_client E config unique_id net)

  unfoldable pub create_binary_sensor : String → Entity (Client (E.Net))
  unfolding create_client new_binary_sensor
  create_binary_sensor unique_id =
      new_binary_sensor bound unique_id (create_client E config unique_id net)

  unfoldable pub create_button : String → Entity (Client (E.Net))
  unfolding create_client new_button
  create_button unique_id = new_button bound unique_id (create_client E config unique_id net)

  unfoldable pub create_sensor : String → Entity (Client (E.Net))
  unfolding create_client new_sensor
  create_sensor unique_id = new_sensor bound unique_id (create_client E config unique_id net)

  -- The entity in the adapter that is made of the factory's.
  unfoldable pub adapted :
      (Config → String) → EntityKind → String → Outcome (Entity (Client (E.Net)))
  unfolding create_cover create_binary_sensor create_button create_sensor new_adapter
  adapted serialize cover unique_id =
      after (new_adapter (cover_ops bound rounds serialize) (create_cover unique_id))
        (λ a. done a.entity)
  adapted serialize binary_sensor unique_id =
      after
        (new_adapter (binary_sensor_ops bound rounds serialize) (create_binary_sensor unique_id))
        (λ a. done a.entity)
  adapted serialize button unique_id =
      after (new_adapter (button_ops bound rounds serialize) (create_button unique_id))
        (λ a. done a.entity)
  adapted serialize sensor unique_id =
      after (new_adapter (sensor_ops bound rounds serialize) (create_sensor unique_id))
        (λ a. done a.entity)
