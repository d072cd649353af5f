-- ===== src/Mqtt/Client/Retries.antt =====
-- The reconnection loop: when it ends, how often it tries, and what it tells.
use hhctrl_mgmt.Base.{
  ℕ, zero, suc, ◌+◌, ◌<◌, ◌≤◌, ◌≡◌, refl, ◌∙◌, ◌⊎◌, inl, inr, Option-cases, Bool-cases, Bool, true,
  false, none, some, arith, ◌==◌, String,
}
use hhctrl_mgmt.Base.Outcome.{done, thrown, stuck, M, is_stuck}
use hhctrl_mgmt.Mqtt.Error.{
  ErrorCode, Fault, unexpected, fault, map_error_code, no_service, disconnected, timeout,
  connection_refused, timed_out, refused, network_unreachable, no_such_file_or_directory,
}
use hhctrl_mgmt.Mqtt.Packet.{connack, Received, packet, failed, Sent}
use hhctrl_mgmt.Mqtt.Client.{
  Endpoint, Client, con_packet, async_connect, reconnect_loop, reconnect_by, reconnect_round,
  try_reconnect, async_receive,
}

abbrev pub is_failure : Received → Bool
is_failure (failed n) = true
is_failure _ = false

map_cases : (n : ℕ) → (map_error_code n ≡ thrown) ⊎ ((c : ErrorCode) × (map_error_code n ≡ done c))
unfolding map_error_code
map_cases n = elim (Bool-cases (n == timed_out)) [
  | inl a ↦ inr (timeout, ground (arith, a))
  | inr a ↦ elim (Bool-cases (n == refused)) [
    | inl b ↦ inr (connection_refused, ground (arith, b))
    | inr b ↦ elim (Bool-cases (n == network_unreachable)) [
      | inl c ↦ inr (no_service, ground (arith, c))
      | inr c ↦ elim (Bool-cases (n == no_such_file_or_directory)) [
        | inl d ↦ inr (no_service, ground (arith, d))
        | inr d ↦ inl (ground (arith, a, b, c, d))
      ]
    ]
  ]
]

acked : Received → Bool → Bool
acked (packet (connack code)) b = true
acked _ b = b

module _ (E : Endpoint) where
  -- The states of the endpoint on the way through `async_connect` after the delay.
  abbrev after_wait : Client E.Net → E.Net
  after_wait c = (E.wait c.config.reconnect_delay c.net).1

  abbrev after_resolve : Client E.Net → E.Net
  after_resolve c = (E.resolve c.config.host c.config.port (after_wait c)).1

  abbrev after_connect : Client E.Net → E.Net
  after_connect c = (E.connect (after_resolve c)).1

  abbrev after_send : Client E.Net → E.Net
  after_send c = (E.send (con_packet c.config c.will) (after_connect c)).1

  round_end :
      (loop : M (Client E.Net) Bool) (c : Client E.Net)
      → c.config.max_attempts ≤ c.attempt
      → reconnect_round E loop c ≡ done (false, record c { attempt = c.attempt + 1 })
  unfolding reconnect_round
  round_end loop c h = ground arith

  module _ (timer : (d : ℕ) (net : E.Net) → (E.wait d net).0 ≡ none)
      (down : (host port : String) (net : E.Net)
        → (n : ℕ) × ((E.resolve host port net).0 ≡ some n)) where
    abbrev tried : Client E.Net → Client E.Net
    tried c = record c { attempt = c.attempt + 1; net = after_resolve c }

    round_down :
        (loop : M (Client E.Net) Bool) (c : Client E.Net)
        → c.attempt < c.config.max_attempts
        → reconnect_round E loop c ≡ loop (tried c)
    unfolding reconnect_round
    round_down loop c h = ground (
      arith,
      timer c.config.reconnect_delay c.net,
      down c.config.host c.config.port (after_wait c),
    )

    loop_exhausts :
        (k fuel : ℕ) (c : Client E.Net)
        → c.attempt + k ≡ c.config.max_attempts
        → k < fuel
        → (c' : Client E.Net) × (reconnect_loop E fuel c ≡ done (false, c'))
          × (c'.attempt ≡ c.config.max_attempts + 1)
          × (c'.connected ≡ c.connected)
          × (c'.config ≡ c.config)
    unfolding reconnect_loop
    loop_exhausts k zero c e h = absurd (omega arith)
    loop_exhausts zero (suc fuel) c e h = (
      record c { attempt = c.attempt + 1 },
      round_end (reconnect_loop E fuel) c (omega arith),
      omega arith,
      refl,
      refl,
    )
    loop_exhausts (suc k) (suc fuel) c e h =
        let (c', result, attempt, connected, config) =
          loop_exhausts k fuel (tried c) (omega arith) (omega arith) in
        (
          c',
          round_down (reconnect_loop E fuel) c (omega arith) ∙ result,
          attempt,
          connected,
          config,
        )

    -- When the broker's name cannot be resolved any more, a lost connection ends in a
    -- `disconnected` error after the configured number of attempts, which fuel above that number
    -- is enough for. The attempts then stand one above the limit, so that the message does not
    -- tell that reconnecting has failed, and the client still counts as connected.
    pub async_receive_exhausted :
        (rounds fuel n : ℕ) (net' : E.Net) (c : Client E.Net)
        → c.connected ≡ true
        → 0 < c.config.max_attempts
        → c.config.max_attempts < fuel
        → E.recv c.net ≡ (failed n, net')
        → (c' : Client E.Net) × (async_receive E (suc rounds) fuel c
            ≡ done (unexpected (fault disconnected "Client got disconnected "), c'))
          × (c'.attempt ≡ c.config.max_attempts + 1)
          × (c'.connected ≡ true)
    unfolding async_receive
    async_receive_exhausted rounds fuel n net' c up pos h lost =
        let (c', result, attempt, connected, config) =
          loop_exhausts c.config.max_attempts fuel (record c { attempt = 0; net = net' })
            (omega arith) h in
        (c', ground (arith, result), attempt, connected ∙ up)

  module _ (timer : (d : ℕ) (net : E.Net) → (E.wait d net).0 ≡ none)
      (resolves : (host port : String) (net : E.Net) → (E.resolve host port net).0 ≡ none)
      (connects : (net : E.Net) → (E.connect net).0 ≡ none)
      (sends : (p : Sent) (net : E.Net) → (E.send p net).0 ≡ none)
      (breaks : (net : E.Net) → (n : ℕ) × ((E.recv net).0 ≡ failed n)) where
    round_breaks :
        (loop : M (Client E.Net) Bool) (c : Client E.Net)
        → c.connected ≡ true
        → c.attempt < c.config.max_attempts
        → loop (record c { attempt = 0; net = (E.recv (after_send c)).1 }) ≡ stuck
        → reconnect_round E loop c ≡ stuck
    unfolding reconnect_round
    round_breaks loop c up h s = ground (
      arith,
      timer c.config.reconnect_delay c.net,
      resolves c.config.host c.config.port (after_wait c),
      connects (after_resolve c),
      sends (con_packet c.config c.will) (after_connect c),
      breaks (after_send c),
    )

    loop_breaks :
        (fuel : ℕ) (c : Client E.Net)
        → c.connected ≡ true
        → c.attempt < c.config.max_attempts
        → reconnect_loop E fuel c ≡ stuck
    unfolding reconnect_loop
    loop_breaks zero c up h = refl
    loop_breaks (suc fuel) c up h =
        round_breaks (reconnect_loop E fuel) c up h (loop_breaks fuel _ up (omega arith))

    -- When names are resolved, connections are made, packets are sent and timers run out, but
    -- every new connection breaks before its `connack`, reconnecting a connected client never
    -- ends, whatever positive limit the attempts have: each broken connection starts a
    -- `try_reconnect` of its own, which counts from 0 again. No fuel is enough.
    pub try_reconnect_diverges :
        (fuel : ℕ) (c : Client E.Net)
        → c.connected ≡ true
        → 0 < c.config.max_attempts
        → try_reconnect E fuel c ≡ stuck
    unfolding try_reconnect
    try_reconnect_diverges fuel c up pos =
        ground (arith, loop_breaks fuel (record c { attempt = 0 }) up pos)

  module _ (whole : (net : E.Net) → is_failure (E.recv net).0 ≡ false) where
    connect_cases :
        (r : M (Client E.Net) Bool) (d : Client E.Net)
        → (async_connect E r d ≡ thrown)
          ⊎ ((e : Fault) × (net : E.Net) × (async_connect E r d
                ≡ done (some e, record d { net = net })))
          ⊎ ((d' : Client E.Net) × (async_connect E r d ≡ done (none, d')))
    unfolding async_connect acked
    connect_cases r d =
        let n₁ : E.Net = (E.resolve d.config.host d.config.port d.net).1 in
        let n₂ : E.Net = (E.connect n₁).1 in
        let n₃ : E.Net = (E.send (con_packet d.config d.will) n₂).1 in
        elim (Option-cases (E.resolve d.config.host d.config.port d.net).0) [
          | inr (n, e) ↦ inr (
              inl (
                fault no_service "Error while resolving name of the broker",
                n₁,
                ground (arith, e),
              ))
          | inl e ↦ elim (Option-cases (E.connect n₁).0) [
            | inr (n, p) ↦ elim (map_cases n) [
              | inl t ↦ inl (ground (arith, e, p, t))
              | inr (code, t) ↦ inr (
                  inl
                    (fault code "Error while establishing connection", n₂, ground (arith, e, p, t)))
            ]
            | inl p ↦ elim (Option-cases (E.send (con_packet d.config d.will) n₂).0) [
              | inr (n, q) ↦ elim (map_cases n) [
                | inl t ↦ inl (ground (arith, e, p, q, t))
                | inr (code, t) ↦ inr (
                    inl (
                      fault code "Error while sending ConnectPacket",
                      n₃,
                      ground (arith, e, p, q, t),
                    ))
              ]
              | inl q ↦ inr (
                  inr (
                    record d {
                      connected = acked (E.recv n₃).0 d.connected;
                      attempt = 0;
                      net = (E.recv n₃).1;
                    },
                    ground (arith, e, p, q, whole n₃),
                  ))
            ]
          ]
        ]

    round_total :
        (loop : M (Client E.Net) Bool) (c : Client E.Net)
        → ((net : E.Net)
            → is_stuck (loop (record c { attempt = c.attempt + 1; net = net })) ≡ false)
        → is_stuck (reconnect_round E loop c) ≡ false
    unfolding reconnect_round
    round_total loop c h =
        elim (connect_cases (reconnect_by E loop)
          (record c { attempt = c.attempt + 1; net = after_wait c })) [
            | inl t ↦ ground (arith, t)
            | inr (inl (e, net, t)) ↦ ground (arith, t, h net)
            | inr (inr (d', t)) ↦ ground (arith, t)
          ]

    loop_total :
        (k fuel : ℕ) (c : Client E.Net)
        → c.config.max_attempts ≤ c.attempt + k
        → k < fuel
        → is_stuck (reconnect_loop E fuel c) ≡ false
    unfolding reconnect_loop
    loop_total k zero c e h = absurd (omega arith)
    loop_total zero (suc fuel) c e h = ground (arith, round_end (reconnect_loop E fuel) c)
    loop_total (suc k) (suc fuel) c e h = round_total (reconnect_loop E fuel) c (λ net.
        loop_total k fuel (record c { attempt = c.attempt + 1; net = net }) (omega arith)
          (omega arith))

    -- When no connection breaks before its `connack`, `try_reconnect` ends: fuel above the
    -- configured number of attempts is enough, whatever else fails on the way.
    pub try_reconnect_total :
        (fuel : ℕ) (c : Client E.Net)
        → c.config.max_attempts < fuel
        → is_stuck (try_reconnect E fuel c) ≡ false
    unfolding try_reconnect
    try_reconnect_total fuel c h =
        ground
          (arith, loop_total c.config.max_attempts fuel (record c { attempt = 0 }) (omega arith) h)
