-- ===== src/Mqtt/Button.antt =====
-- `Button` of src/home_assistant_v2/include/home_assistant/mqtt/button.hpp.
use hhctrl_mgmt.Base.{ℕ, none, some, List, [], ◌∷◌, String, str_eq, if◌then◌else◌}
use hhctrl_mgmt.Base.Outcome.{Outcome, done, M, ◌>>=◌, pure, get, after, lift}
use hhctrl_mgmt.Utils.StaticMap.{at_key}
use hhctrl_mgmt.Mqtt.Error.{Error, Expected, value, unexpected, fault, unknown_packet}
use hhctrl_mgmt.Mqtt.Packet.{Pubopts}
use hhctrl_mgmt.Mqtt.Config.{text, Config, set, set_override}
use hhctrl_mgmt.Mqtt.Entity.{
  EntityClient, Entity, new_entity, topic, availability_topic, json_attributes_template,
  async_receive, async_set_config, async_subscribe,
}

-- `topics_`.
abbrev pub button_topics : {S : Type 0} → Entity S → List (String × String)
button_topics e = ("command_topic", topic e "set") ∷ []

unfoldable pub button_config : {S : Type 0} → Entity S → Config → Outcome Config
unfolding at_key
button_config e c₀ = after (at_key str_eq "command_topic" (button_topics e)) λ command.
    let c₁ = set_override "command_topic" (text command) c₀ in
    let c₂ = set_override "payload_press" (text "press") c₁ in
    let c₃ = set_override availability_topic (text (topic e availability_topic)) c₂ in
    done (set json_attributes_template (text "{{ value_json | tojson }}") c₃)

-- `PressButtonCommand`.
pub data ButtonCommand : Type 0 where
  press : ButtonCommand

module _ (C : EntityClient) where
  open C use {State}

  unfoldable pub new_button : String → State → Entity State
  unfolding new_entity
  new_button uid client = new_entity C "button" uid client

  unfoldable pub button_configure : (Config → String) → Config → Pubopts → M (Entity State) Error
  unfolding async_set_config async_subscribe button_config
  button_configure serialize config opts = do
    e ← get
    full ← lift (button_config e config)
    error ← async_set_config C serialize full opts
    elim error [
      | some f ↦ pure (some f)
      | none ↦ do
        command ← lift (at_key str_eq "command_topic" (button_topics e))
        refused ← async_subscribe C (command ∷ [])
        elim refused [ some f ↦ pure (some f) | none ↦ pure none ]
    ]

  unfoldable pub button_receive : ℕ → M (Entity State) (Expected ButtonCommand)
  button_receive rounds = do
    packet ← async_receive C rounds
    elim packet [
      | unexpected f ↦ pure (unexpected f)
      | value m ↦
          if str_eq m.payload "press"
          then pure (value press)
          else pure (unexpected (fault unknown_packet ""))
    ]
