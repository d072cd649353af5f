-- ===== src/Mqtt/Cover.antt =====
-- `Cover` of src/home_assistant_v2/include/home_assistant/mqtt/cover.hpp.
pub mod Commands
use Prim.Native.String.{◌++◌}
use hhctrl_mgmt.Base.{
  ℕ, ◌≡◌, refl, Bool, true, false, Option, none, some, List, [], ◌∷◌, map, ◌==◌, String, str_eq,
  if◌then◌else◌,
}
use hhctrl_mgmt.Base.Outcome.{Outcome, done, thrown, stuck, M, ◌>>=◌, ◌>>◌, pure, get, after, lift}
use hhctrl_mgmt.Utils.StaticMap.{at_key}
use hhctrl_mgmt.Utils.Mapper.{map_key, map_value}
use hhctrl_mgmt.Mqtt.Error.{Error, Expected, value, unexpected, fault, unknown_packet}
use hhctrl_mgmt.Mqtt.Packet.{Publish, Pubopts}
use hhctrl_mgmt.Mqtt.Config.{Json, text, Config, set, set_override, set_override_if_not_null}
use hhctrl_mgmt.Mqtt.Entity.{
  EntityClient, Entity, new_entity, topic, availability_topic, json_attributes_topic,
  json_attributes_template, async_publish, async_receive, async_set_config, async_subscribe,
}

pub data CoverState : Type 0 where
  undefined open_state opening closing closed : CoverState

pub data SwitchCommand : Type 0 where
  open_command close_command stop_command : SwitchCommand

abbrev pub state_code : CoverState → ℕ
state_code undefined = 0
state_code open_state = 1
state_code opening = 2
state_code closing = 3
state_code closed = 4

abbrev pub command_code : SwitchCommand → ℕ
command_code open_command = 0
command_code close_command = 1
command_code stop_command = 2

abbrev pub state_eq : CoverState → CoverState → Bool
state_eq a b = state_code a == state_code b

abbrev pub command_eq : SwitchCommand → SwitchCommand → Bool
command_eq a b = command_code a == command_code b

-- `CoverStateMapper`.
abbrev pub cover_states : List (CoverState × String)
cover_states =
    (open_state, "open") ∷ (opening, "opening") ∷ (closing, "closing") ∷ (closed, "closed") ∷ []

-- `CoverSwitchCommandMapper`.
abbrev pub switch_commands : List (SwitchCommand × String)
switch_commands = (open_command, "open") ∷ (close_command, "close") ∷ (stop_command, "stop") ∷ []

-- `topics_`.
abbrev pub cover_topics : {S : Type 0} → Entity S → List (String × String)
cover_topics e =
    ("command_topic", topic e "set")
    ∷ ("state_topic", topic e "state")
    ∷ (json_attributes_topic, topic e json_attributes_topic)
    ∷ []

-- The configuration that `async_configure` sends, in the order in which it sets the keys.
unfoldable pub cover_config : {S : Type 0} → Entity S → Config → Outcome Config
unfolding at_key map_key
cover_config e c₀ = after (at_key str_eq "command_topic" (cover_topics e)) λ command.
    after (at_key str_eq "state_topic" (cover_topics e)) λ state.
      after (map_key state_eq opening cover_states) λ opening_text.
        after (map_key state_eq open_state cover_states) λ open_text.
          after (map_key state_eq closing cover_states) λ closing_text.
            after (map_key state_eq closed cover_states) λ closed_text.
              after (map_key command_eq open_command switch_commands) λ open_payload.
                after (map_key command_eq close_command switch_commands) λ close_payload.
                  after (map_key command_eq stop_command switch_commands) λ stop_payload.
                    after (at_key str_eq json_attributes_topic (cover_topics e)) λ attributes.
                      let c₁ = set_override "command_topic" (text command) c₀ in
                      let c₂ = set_override "state_topic" (text state) c₁ in
                      let c₃ = set_override "state_opening" (text opening_text) c₂ in
                      let c₄ = set_override "state_open" (text open_text) c₃ in
                      let c₅ = set_override "state_closing" (text closing_text) c₄ in
                      let c₆ = set_override "state_closed" (text closed_text) c₅ in
                      let c₇ = set_override_if_not_null "payload_open" (text open_payload) c₆ in
                      let c₈ = set_override_if_not_null "payload_close" (text close_payload) c₇ in
                      let c₉ = set_override_if_not_null "payload_stop" (text stop_payload) c₈ in
                      let c₁₀ =
                        set_override availability_topic (text (topic e availability_topic)) c₉ in
                      let c₁₁ = set_override json_attributes_topic (text attributes) c₁₀ in
                      done (set json_attributes_template (text "{{ value_json | tojson }}") c₁₁)

-- `detail::map_command`, with the tilt commands left out as in the source; the `assert` is taken as
-- compiled out.
unfoldable pub map_command : List (String × String) → Publish → Outcome (Option SwitchCommand)
unfolding at_key map_value
map_command topics packet = after (at_key str_eq "command_topic" topics) λ command_topic.
    if str_eq packet.topic command_topic
    then after (map_value str_eq packet.payload switch_commands) (λ c. done (some c))
    else done none

module _ (C : EntityClient) where
  open C use {State}

  unfoldable pub new_cover : String → State → Entity State
  unfolding new_entity
  new_cover uid client = new_entity C "cover" uid client

  unfoldable pub cover_configure : (Config → String) → Config → Pubopts → M (Entity State) Error
  unfolding async_set_config async_subscribe cover_config
  cover_configure serialize config opts = do
    e ← get
    full ← lift (cover_config e config)
    error ← async_set_config C serialize full opts
    elim error [
      | some f ↦ pure (some f)
      | none ↦ do
        command ← lift (at_key str_eq "command_topic" (cover_topics e))
        refused ← async_subscribe C (command ∷ [])
        elim refused [ some f ↦ pure (some f) | none ↦ pure none ]
    ]

  unfoldable pub cover_set_state : CoverState → Pubopts → M (Entity State) Error
  unfolding async_publish
  cover_set_state state opts = elim (state_eq state undefined) [
    | true ↦ pure none
    | false ↦ do
      e ← get
      destination ← lift (at_key str_eq "state_topic" (cover_topics e))
      payload ← lift (map_key state_eq state cover_states)
      async_publish C destination payload opts
  ]

  unfoldable pub cover_receive : ℕ → M (Entity State) (Expected SwitchCommand)
  unfolding map_command
  cover_receive rounds = do
    packet ← async_receive C rounds
    elim packet [
      | unexpected f ↦ pure (unexpected f)
      | value m ↦ do
        e ← get
        command ← lift (map_command (cover_topics e) m)
        elim command [
          | some c ↦ pure (value c)
          | none ↦ pure (unexpected (fault unknown_packet ""))
        ]
    ]
