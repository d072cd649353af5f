-- ===== src/Mqtt/Sensor.antt =====
-- `Sensor` of src/home_assistant_v2/include/home_assistant/mqtt/sensor.hpp.
use hhctrl_mgmt.Base.{ℕ, none, some, List, [], ◌∷◌, String, str_eq}
use hhctrl_mgmt.Base.Outcome.{Outcome, done, M, ◌>>=◌, pure, get, after, lift}
use hhctrl_mgmt.Utils.StaticMap.{at_key}
use hhctrl_mgmt.Mqtt.Error.{Error, value, unexpected}
use hhctrl_mgmt.Mqtt.Packet.{Pubopts}
use hhctrl_mgmt.Mqtt.Config.{text, Config, set, set_override}
use hhctrl_mgmt.Mqtt.Entity.{
  EntityClient, Entity, new_entity, topic, availability_topic, json_attributes_topic,
  json_attributes_template, async_publish, async_receive, async_set_config,
}

-- `topics_`.
abbrev pub sensor_topics : {S : Type 0} → Entity S → List (String × String)
sensor_topics e =
    ("state_topic", topic e "state") ∷ (json_attributes_topic, topic e json_attributes_topic) ∷ []

unfoldable pub sensor_config : {S : Type 0} → Entity S → Config → Outcome Config
unfolding at_key
sensor_config e c₀ = after (at_key str_eq "state_topic" (sensor_topics e)) λ state.
    after (at_key str_eq json_attributes_topic (sensor_topics e)) λ attributes.
      let c₁ = set_override "state_topic" (text state) c₀ in
      let c₂ = set_override availability_topic (text (topic e availability_topic)) c₁ in
      let c₃ = set_override json_attributes_topic (text attributes) c₂ in
      done (set json_attributes_template (text "{{ value_json | tojson }}") c₃)

module _ (C : EntityClient) where
  open C use {State}

  unfoldable pub new_sensor : String → State → Entity State
  unfolding new_entity
  new_sensor uid client = new_entity C "sensor" uid client

  unfoldable pub sensor_configure : (Config → String) → Config → Pubopts → M (Entity State) Error
  unfolding async_set_config sensor_config
  sensor_configure serialize config opts = do
    e ← get
    full ← lift (sensor_config e config)
    error ← async_set_config C serialize full opts
    elim error [ some f ↦ pure (some f) | none ↦ pure none ]

  unfoldable pub sensor_set_state : String → Pubopts → M (Entity State) Error
  unfolding async_publish
  sensor_set_state state opts = do
    e ← get
    destination ← lift (at_key str_eq "state_topic" (sensor_topics e))
    async_publish C destination state opts

  unfoldable pub sensor_receive : ℕ → M (Entity State) Error
  sensor_receive rounds = do
    packet ← async_receive C rounds
    elim packet [ unexpected f ↦ pure (some f) | value m ↦ pure none ]
