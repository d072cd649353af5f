-- ===== src/Mqtt/BinarySensor.antt =====
-- `BinarySensor` of src/home_assistant_v2/include/home_assistant/mqtt/binary_sensor.hpp.
use hhctrl_mgmt.Base.{ℕ, Bool, none, some, List, [], ◌∷◌, ◌==◌, String, str_eq}
use hhctrl_mgmt.Base.Outcome.{Outcome, done, M, ◌>>=◌, pure, get, after, lift}
use hhctrl_mgmt.Utils.StaticMap.{at_key}
use hhctrl_mgmt.Utils.Mapper.{map_key}
use hhctrl_mgmt.Mqtt.Error.{Error, value, unexpected}
use hhctrl_mgmt.Mqtt.Packet.{Pubopts}
use hhctrl_mgmt.Mqtt.Config.{text, Config, set, set_override}
use hhctrl_mgmt.Mqtt.Entity.{
  EntityClient, Entity, new_entity, topic, availability_topic, json_attributes_topic,
  json_attributes_template, async_publish, async_receive, async_set_config,
}

pub data BinarySensorState : Type 0 where
  off on : BinarySensorState

abbrev pub binary_state_code : BinarySensorState → ℕ
binary_state_code off = 0
binary_state_code on = 1

abbrev pub binary_state_eq : BinarySensorState → BinarySensorState → Bool
binary_state_eq a b = binary_state_code a == binary_state_code b

-- `BinarySensorStateMapper`.
abbrev pub binary_states : List (BinarySensorState × String)
binary_states = (off, "off") ∷ (on, "on") ∷ []

-- `topics_`.
abbrev pub binary_sensor_topics : {S : Type 0} → Entity S → List (String × String)
binary_sensor_topics e =
    ("state_topic", topic e "state") ∷ (json_attributes_topic, topic e json_attributes_topic) ∷ []

unfoldable pub binary_sensor_config : {S : Type 0} → Entity S → Config → Outcome Config
unfolding at_key map_key
binary_sensor_config e c₀ = after (at_key str_eq "state_topic" (binary_sensor_topics e)) λ state.
    after (map_key binary_state_eq off binary_states) λ off_text.
      after (map_key binary_state_eq on binary_states) λ on_text.
        after (at_key str_eq json_attributes_topic (binary_sensor_topics e)) λ attributes.
          let c₁ = set_override "state_topic" (text state) c₀ in
          let c₂ = set_override "payload_off" (text off_text) c₁ in
          let c₃ = set_override "payload_on" (text on_text) c₂ in
          let c₄ = set_override availability_topic (text (topic e availability_topic)) c₃ in
          let c₅ = set_override json_attributes_topic (text attributes) c₄ in
          done (set json_attributes_template (text "{{ value_json | tojson }}") c₅)

module _ (C : EntityClient) where
  open C use {State}

  unfoldable pub new_binary_sensor : String → State → Entity State
  unfolding new_entity
  new_binary_sensor uid client = new_entity C "binary_sensor" uid client

  unfoldable pub binary_sensor_configure :
      (Config → String) → Config → Pubopts → M (Entity State) Error
  unfolding async_set_config binary_sensor_config
  binary_sensor_configure serialize config opts = do
    e ← get
    full ← lift (binary_sensor_config e config)
    error ← async_set_config C serialize full opts
    elim error [ some f ↦ pure (some f) | none ↦ pure none ]

  unfoldable pub binary_sensor_set_state : BinarySensorState → Pubopts → M (Entity State) Error
  unfolding async_publish
  binary_sensor_set_state state opts = do
    e ← get
    destination ← lift (at_key str_eq "state_topic" (binary_sensor_topics e))
    payload ← lift (map_key binary_state_eq state binary_states)
    async_publish C destination payload opts

  unfoldable pub binary_sensor_receive : ℕ → M (Entity State) Error
  binary_sensor_receive rounds = do
    packet ← async_receive C rounds
    elim packet [ unexpected f ↦ pure (some f) | value m ↦ pure none ]
