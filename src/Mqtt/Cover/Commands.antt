-- ===== src/Mqtt/Cover/Commands.antt =====
-- What a cover announces, and which commands it understands.
use hhctrl_mgmt.Base.{
  ℕ, ◌≡◌, ◌≢◌, refl, not, Option, none, some, String, if◌then◌else◌, arith, eq_iff,
}
use hhctrl_mgmt.Base.Outcome.{done, thrown}
use hhctrl_mgmt.Utils.Mapper.{map_value}
use hhctrl_mgmt.Mqtt.Error.{value}
use hhctrl_mgmt.Mqtt.Packet.{Publish}
use hhctrl_mgmt.Mqtt.Config.{Json, text, null, device, Config, lookup, config_laws, is_null}
use hhctrl_mgmt.Mqtt.Entity.{EntityClient, Entity, topic, async_receive}
use hhctrl_mgmt.Mqtt.Cover.{
  SwitchCommand, open_command, close_command, stop_command, cover_topics, cover_config, map_command,
  cover_receive,
}

abbrev pub payload_of : SwitchCommand → String
payload_of open_command = "open"
payload_of close_command = "close"
payload_of stop_command = "stop"

null_or_text :
    (v : Option Json)
    → (if not (is_null v) then some (text "stop") else v)
      ≡ (if is_null v then some null else some (text "stop"))
null_or_text none = refl
null_or_text (some null) = refl
null_or_text (some (text s)) = refl
null_or_text (some (device _ _ _ _ _)) = refl

-- Every cover can be configured. The configuration names its own command and state topics, and
-- announces a payload for the stop command unless it came in with a null for it, which stays.
pub cover_config_lem :
    {S : Type 0} (e : Entity S) (config : Config)
    → (full : Config) × (cover_config e config ≡ done full)
      × (lookup "command_topic" full ≡ some (text (topic e "set")))
      × (lookup "state_topic" full ≡ some (text (topic e "state")))
      × (lookup "payload_stop" full
          ≡ (if is_null (lookup "payload_stop" config) then some null else some (text "stop")))
unfolding cover_config
cover_config_lem e config = (
  _,
  refl,
  simp config_laws refl,
  simp config_laws refl,
  simp config_laws (null_or_text (lookup "payload_stop" config)),
)

-- Each command is read back from its payload on the command topic.
pub map_command_payload :
    {S : Type 0} (e : Entity S) (packet : Publish) (c : SwitchCommand)
    → packet.topic ≡ topic e "set"
    → packet.payload ≡ payload_of c
    → map_command (cover_topics e) packet ≡ done (some c)
unfolding map_command map_value
map_command_payload e packet open_command t p =
    ground (arith, eq_iff packet.topic (topic e "set"), eq_iff packet.payload "open")
map_command_payload e packet close_command t p = ground (
  arith,
  eq_iff packet.topic (topic e "set"),
  eq_iff packet.payload "open",
  eq_iff packet.payload "close",
  eq_iff "open" "close",
)
map_command_payload e packet stop_command t p = ground (
  arith,
  eq_iff packet.topic (topic e "set"),
  eq_iff packet.payload "open",
  eq_iff packet.payload "close",
  eq_iff packet.payload "stop",
  eq_iff "open" "stop",
  eq_iff "close" "stop",
)

module _ (C : EntityClient) where
  -- A packet on the command topic whose payload is none of the three commands makes `async_receive`
  -- throw, where a payload that cannot be read is meant to give the error `unknown_packet`.
  pub cover_receive_throws :
      (rounds : ℕ) (e e' : Entity (C.State)) (m : Publish)
      → async_receive C rounds e ≡ done (value m, e')
      → m.topic ≡ topic e' "set"
      → m.payload ≢ "open"
      → m.payload ≢ "close"
      → m.payload ≢ "stop"
      → cover_receive C rounds e ≡ thrown
  unfolding cover_receive map_command map_value
  cover_receive_throws rounds e e' m r t a b c = rw r (
      ground (
        arith,
        eq_iff m.topic (topic e' "set"),
        eq_iff m.payload "open",
        eq_iff m.payload "close",
        eq_iff m.payload "stop",
      ))
