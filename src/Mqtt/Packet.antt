-- ===== src/Mqtt/Packet.antt =====
-- The packets that src/home_assistant_v2/include/home_assistant/mqtt/async_mqtt_client.hpp sends and
-- receives, with opts.hpp and will.hpp. The packet classes are those of async_mqtt: kept is what the
-- client reads of them or gives to their constructors.
use hhctrl_mgmt.Base.{ℕ, Bool, true, false, ◌||◌, Option, List, any_of, ◌==◌, String}

pub data Qos : Type 0 where
  at_most_once at_least_once exactly_once : Qos

-- `pub::opts`.
pub record Pubopts : Type 0 where
  pub qos : Qos
  pub retain : Bool

pub record Publish : Type 0 where
  pub packet_id : ℕ
  pub topic : String
  pub payload : String
  pub opts : Pubopts

-- A `suback` carries a return code for each topic of the subscription.
pub data Packet : Type 0 where
  connack : ℕ → Packet
  publish : Publish → Packet
  puback : ℕ → Packet
  suback : List ℕ → Packet
  other : Packet

-- What `ep_.recv` gives: a packet, a packet with no type, or an error value.
pub data Received : Type 0 where
  packet : Packet → Received
  untyped : Received
  failed : ℕ → Received

-- `ReceiveResult_t`.
pub data Result : Type 0 where
  publish_result : Publish → Result
  puback_result : ℕ → Result
  suback_result : List ℕ → Result

pub record Will : Type 0 where
  pub topic : String
  pub message : String
  pub pubopts : Pubopts

pub data Sent : Type 0 where
  connect_packet :
      (clean_session : Bool) (keep_alive : ℕ) (client_id : String) (will : Option Will)
      (username password : Option String)
      → Sent
  subscribe_packet : ℕ → List (String × Qos) → Sent
  publish_packet : Publish → Sent

-- `suback_return_code::failure` is 0x80.
abbrev pub any_suback_failure : List ℕ → Bool
any_suback_failure entries = any_of (λ code. code == 0x80) entries

abbrev pub is_at_least_once : Qos → Bool
is_at_least_once at_least_once = true
is_at_least_once _ = false

abbrev pub is_at_most_once : Qos → Bool
is_at_most_once at_most_once = true
is_at_most_once _ = false

abbrev pub supported_qos : Qos → Bool
supported_qos qos = is_at_least_once qos || is_at_most_once qos

abbrev pub default_qos : Qos
default_qos = at_least_once
