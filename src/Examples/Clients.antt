-- ===== src/Examples/Clients.antt =====
-- The client at concrete inputs.
use hhctrl_mgmt.Base.{
  ℕ, ◌+◌, ◌*◌, ◌≡◌, refl, Bool, true, false, Option, none, some, List, [], ◌∷◌, arith,
}
use hhctrl_mgmt.Base.Outcome.{done, thrown, stuck, is_stuck}
use hhctrl_mgmt.Mqtt.Error.{AreUnmapped, fault, disconnected, unexpected}
use hhctrl_mgmt.Mqtt.Packet.{connack, Received, packet, failed}
use hhctrl_mgmt.Mqtt.Client.{Endpoint, Client, async_connect, try_reconnect, async_receive}
use hhctrl_mgmt.Mqtt.Client.Sessions.{async_connect_packet, async_connect_recv_error}
use hhctrl_mgmt.Mqtt.Client.Retries.{
  async_receive_exhausted, try_reconnect_diverges, try_reconnect_total,
}

-- What the broker sends, and what is received after that.
abbrev pub next : Received → List Received → Received × List Received
next last [] = (last, [])
next last (r ∷ rs) = (r, rs)

-- An endpoint whose name lookup always gives this result, and which receives so.
abbrev endpoint : Option ℕ → (List Received → Received × List Received) → Endpoint
endpoint lookup recv = record {
  Net = List Received;
  resolve = λ host port net. (lookup, net);
  connect = λ net. (none, net);
  send = λ sent net. (none, net);
  recv = recv;
  acquire_unique_packet_id = λ net. (1, net);
  wait = λ delay net. (none, net);
  wrapped = λ v. v + 1000 * 7;
}

abbrev pub live : Endpoint
live = endpoint none (next (packet (connack 0)))

abbrev steady : Endpoint
steady = endpoint none (λ net. (packet (connack 0), net))

abbrev down : Endpoint
down = endpoint (some 101) (next (failed 2))

abbrev breaking : Endpoint
breaking = endpoint none (λ net. (failed 2, net))

abbrev pub client : Bool → List Received → Client (List Received)
client connected net = record {
  config = record {
    unique_id = "5_3";
    username = "";
    password = "";
    host = "broker";
    port = "1883";
    clean_session = true;
    keep_alive = 60;
    max_attempts = 2;
    reconnect_delay = 10;
  };
  will = none;
  connected = connected;
  attempt = 0;
  net = net;
}

-- The broker answers with a connack that refuses the client (return code 5).
async_connect_packet_example :
    async_connect live (try_reconnect live 3) (client false (packet (connack 5) ∷ []))
    ≡ done (none, record (client false []) { connected = true })
async_connect_packet_example =
    async_connect_packet live (client false (packet (connack 5) ∷ [])) (packet (connack 5) ∷ [])
      (packet (connack 5) ∷ []) (packet (connack 5) ∷ []) [] (try_reconnect live 3) refl refl refl
      (connack 5) refl

live-AreUnmapped : AreUnmapped live.wrapped
live-AreUnmapped v = ground arith

async_connect_recv_error_example :
    async_connect live (try_reconnect live 3) (client false (failed 110 ∷ [])) ≡ thrown
async_connect_recv_error_example =
    async_connect_recv_error live (client false (failed 110 ∷ [])) (failed 110 ∷ [])
      (failed 110 ∷ []) (failed 110 ∷ []) [] (try_reconnect live 3) refl refl refl 110
      live-AreUnmapped refl refl

async_receive_exhausted_example :
    (c' : Client (List Received)) × (async_receive down 1 3 (client true (failed 104 ∷ []))
      ≡ done (unexpected (fault disconnected "Client got disconnected "), c'))
    × (c'.attempt ≡ 3)
    × (c'.connected ≡ true)
async_receive_exhausted_example =
    async_receive_exhausted down (λ d net. refl) (λ host port net. (101, refl)) 0 3 104 []
      (client true (failed 104 ∷ [])) refl (omega arith) (omega arith) refl

try_reconnect_diverges_example : try_reconnect breaking 100 (client true []) ≡ stuck
try_reconnect_diverges_example =
    try_reconnect_diverges breaking (λ d net. refl) (λ host port net. refl) (λ net. refl)
      (λ p net. refl) (λ net. (2, refl)) 100 (client true []) refl (omega arith)

try_reconnect_total_example : is_stuck (try_reconnect steady 3 (client true [])) ≡ false
try_reconnect_total_example =
    try_reconnect_total steady (λ net. refl) 3 (client true []) (omega arith)
