-- ===== src/Mqtt/Client.antt =====
-- `AsyncMqttClient` of src/home_assistant_v2/include/home_assistant/mqtt/async_mqtt_client.hpp.
-- The socket, resolver, timer and packet endpoint are the parameter `Endpoint`. A coroutine is a
-- function on the client and the state of the endpoint. Reconnecting and connecting call one
-- another, so they run on fuel, and `stuck` says that it ran out. The numbers of a configuration
-- are not negative.
pub mod Sessions
pub mod Retries
pub mod Calls
use hhctrl_mgmt.Base.{
  ℕ, zero, suc, ◌+◌, ◌≡◌, refl, Bool, true, false, not, ◌++◌, Option, none, some, List, [], ◌∷◌,
  map, arith, ◌==◌, leb, String, str_eq, if◌then◌else◌,
}
use hhctrl_mgmt.Base.Outcome.{
  Outcome, done, thrown, stuck, M, ◌>>=◌, ◌>>◌, pure, throw, get, modify, after,
}
use hhctrl_mgmt.Mqtt.Error.{
  ErrorCode, Code, Fault, Error, Expected, value, unexpected, fault, mqtt, system, value_of,
  map_error_code, no_service, unknown_packet, qos_not_supported, disconnected, reconnected,
}
use hhctrl_mgmt.Mqtt.Packet.{
  Qos, Pubopts, Publish, Packet, connack, publish, puback, suback, other, Received, packet, untyped,
  failed, Result, publish_result, puback_result, suback_result, Will, Sent, connect_packet,
  subscribe_packet, publish_packet, supported_qos, is_at_most_once, default_qos,
}

pub record ClientConfig : Type 0 where
  pub unique_id : String
  pub username : String
  pub password : String
  pub host : String
  pub port : String
  pub clean_session : Bool
  pub keep_alive : ℕ
  pub max_attempts : ℕ
  pub reconnect_delay : ℕ

-- What boost::asio, boost::system and async_mqtt do: `none` is success, `some n` the value of an error code.
pub record Endpoint : Type 1 where
  pub Net : Type 0
  pub resolve : String → String → Net → Option ℕ × Net
  pub connect : Net → Option ℕ × Net
  pub send : Sent → Net → Option ℕ × Net
  pub recv : Net → Received × Net
  pub acquire_unique_packet_id : Net → ℕ × Net
  pub wait : ℕ → Net → Option ℕ × Net
  -- `value()` of a `boost::system::error_code` that holds a `std::error_code` of the program's own
  -- category with this value.
  pub wrapped : ℕ → ℕ

-- `reconnect_.attempt` is `attempt`.
pub record Client (Net : Type 0) : Type 0 where
  pub config : ClientConfig
  pub will : Option Will
  pub connected : Bool
  pub attempt : ℕ
  pub net : Net

-- `get_credential`.
abbrev pub credential : String → Option String
credential s = if str_eq s "" then none else some s

abbrev pub con_packet : ClientConfig → Option Will → Sent
con_packet config will =
    connect_packet config.clean_session config.keep_alive config.unique_id will
      (credential config.username) (credential config.password)

module _ (E : Endpoint) where
  open E use {Net, resolve, connect, send, recv, acquire_unique_packet_id, wait}

  -- A call of the endpoint within the client.
  abbrev pub on_net : {A : Type 0} → (Net → A × Net) → M (Client Net) A
  on_net call c = let (a, net') = call c.net in done (a, record c { net = net' })

  abbrev pub lift : {A : Type 0} → Outcome A → M (Client Net) A
  lift o c = after o (λ a. done (a, c))

  unfoldable pub new_client : ClientConfig → Net → Client Net
  new_client config net = record {
    config = config;
    will = none;
    connected = false;
    attempt = 0;
    net = net;
  }

  unfoldable pub set_will : Will → M (Client Net) (Unit {0})
  set_will will = modify (λ c. record c { will = some will })

  unfoldable pub async_send_con : M (Client Net) (Option ℕ)
  async_send_con c = on_net (send (con_packet c.config c.will)) c

  -- `reconnect` is a call of `try_reconnect`.
  unfoldable pub handle_recv_error : M (Client Net) Bool → ℕ → M (Client Net) Fault
  handle_recv_error reconnect n = do
    c ← get
    elim c.connected [
      | true ↦ do
        recovered ← reconnect
        d ← get
        pure (
            if recovered
            then fault reconnected "Client got reconnected"
            else fault disconnected (
                if d.attempt == d.config.max_attempts
                then "Client got disconnected after auto-reconnect failure"
                else "Client got disconnected "))
      | false ↦ do code ← lift (map_error_code n); pure (fault code "")
    ]

  -- Any packet ends the wait; only a `connack` marks the client as connected.
  unfoldable pub async_recv_conack : M (Client Net) Bool → M (Client Net) Error
  unfolding handle_recv_error
  async_recv_conack reconnect = do
    received ← on_net recv
    elim received [
      | packet p ↦ elim p [
        | connack code ↦ do modify (λ c. record c { connected = true }); pure none
        | publish _ ↦ pure none
        | puback _ ↦ pure none
        | suback _ ↦ pure none
        | other ↦ pure none
      ]
      | untyped ↦ pure none
      | failed n ↦ do e ← handle_recv_error reconnect n; pure (some e)
    ]

  -- `Error{map_error_code(code), what}`.
  abbrev pub mapped : ℕ → String → M (Client Net) Error
  mapped n what = do code ← lift (map_error_code n); pure (some (fault code what))

  unfoldable pub async_connect : M (Client Net) Bool → M (Client Net) Error
  unfolding async_send_con async_recv_conack
  async_connect reconnect = do
    c ← get
    resolved ← on_net (resolve c.config.host c.config.port)
    elim resolved [
      | some _ ↦ pure (some (fault no_service "Error while resolving name of the broker"))
      | none ↦ do
        established ← on_net connect
        elim established [
          | some n ↦ mapped n "Error while establishing connection"
          | none ↦ do
            sent ← async_send_con
            elim sent [
              | some n ↦ mapped n "Error while sending ConnectPacket"
              | none ↦ do
                acknowledged ← async_recv_conack reconnect
                elim acknowledged [
                  | some e ↦
                      mapped (value_of E.wrapped e.code) "Error while receiving ConnectAckPacket"
                  | none ↦ do modify (λ d. record d { attempt = 0 }); pure none
                ]
            ]
        ]
    ]

  -- `try_reconnect` before its loop.
  abbrev pub reconnect_by : M (Client Net) Bool → M (Client Net) Bool
  reconnect_by loop = do
    c ← get
    elim (c.config.max_attempts == 0) [
      | true ↦ pure false
      | false ↦ do modify (λ d. record d { attempt = 0 }); loop
    ]

  -- A round of its loop, given the rounds that follow. A connection that is lost again while it
  -- waits for the `connack` starts a `try_reconnect` of its own.
  unfoldable pub reconnect_round : M (Client Net) Bool → M (Client Net) Bool
  unfolding async_connect
  reconnect_round loop c =
      let d = record c { attempt = c.attempt + 1 } in
      elim (leb d.attempt d.config.max_attempts) [
        | false ↦ done (false, d)
        | true ↦
            (do
              waited ← on_net (wait d.config.reconnect_delay)
              elim waited [
                | some _ ↦ pure false
                | none ↦ do
                  error ← async_connect (reconnect_by loop)
                  elim error [ none ↦ pure true | some _ ↦ loop ]
              ])
              d
      ]

  unfoldable pub reconnect_loop : ℕ → M (Client Net) Bool
  unfolding reconnect_round
  reconnect_loop zero c = stuck
  reconnect_loop (suc fuel) c = reconnect_round (reconnect_loop fuel) c

  unfoldable pub try_reconnect : ℕ → M (Client Net) Bool
  try_reconnect fuel = reconnect_by (reconnect_loop fuel)

  -- The loop of `async_receive`, at most `rounds` packets long.
  pub receive_loop : ℕ → M (Client Net) Bool → M (Client Net) (Expected Result)
  unfolding handle_recv_error
  receive_loop zero reconnect c = stuck
  receive_loop (suc rounds) reconnect c =
      (do
        received ← on_net recv
        elim received [
          | packet p ↦ elim p [
            | publish m ↦ pure (value (publish_result m))
            | puback id ↦ pure (value (puback_result id))
            | suback codes ↦ pure (value (suback_result codes))
            | connack _ ↦ receive_loop rounds reconnect
            | other ↦ receive_loop rounds reconnect
          ]
          | untyped ↦
              pure (unexpected (fault unknown_packet "Unknown packet type has been received."))
          | failed n ↦ do e ← handle_recv_error reconnect n; pure (unexpected e)
        ])
        c

  unfoldable pub async_receive : ℕ → ℕ → M (Client Net) (Expected Result)
  unfolding receive_loop try_reconnect
  async_receive rounds fuel = do
    c ← get
    elim c.connected [
      | false ↦ pure (unexpected (fault disconnected "Cannot receive on disconnected client "))
      | true ↦ receive_loop rounds (try_reconnect fuel)
    ]

  unfoldable pub acquire_packet_id : Qos → M (Client Net) ℕ
  acquire_packet_id qos = if is_at_most_once qos then pure 0 else on_net acquire_unique_packet_id

  unfoldable pub async_subscribe : List String → M (Client Net) (Expected ℕ)
  async_subscribe topics = do
    c ← get
    elim c.connected [
      | false ↦
          pure (unexpected (fault disconnected "Cannot subscribe when client is disconnected"))
      | true ↦ do
        packet_id ← on_net acquire_unique_packet_id
        sent ← on_net (send (subscribe_packet packet_id (map (λ t. (t, default_qos)) topics)))
        elim sent [
          | some n ↦ do code ← lift (map_error_code n); pure (unexpected (fault code ""))
          | none ↦ pure (value packet_id)
        ]
    ]

  -- The `assert` on the quality of service is taken as compiled out.
  unfoldable pub async_publish : String → String → Pubopts → M (Client Net) (Expected ℕ)
  unfolding acquire_packet_id
  async_publish topic payload opts = do
    c ← get
    elim c.connected [
      | false ↦ pure (unexpected (fault disconnected "Cannot publish when client is disconnected"))
      | true ↦ elim (supported_qos opts.qos) [
        | false ↦ pure (unexpected (fault qos_not_supported ""))
        | true ↦ do
          packet_id ← acquire_packet_id opts.qos
          sent ← on_net (
              send (
                publish_packet (record {
                  packet_id = packet_id;
                  topic = topic;
                  payload = payload;
                  opts = opts;
                })))
          elim sent [
            | some n ↦ do code ← lift (map_error_code n); pure (unexpected (fault code ""))
            | none ↦ pure (value packet_id)
          ]
      ]
    ]
