-- ===== src/Mqtt/Client/Sessions.antt =====
-- How a connection is established, step by step.
use hhctrl_mgmt.Base.{ℕ, ◌≡◌, Bool, true, false, none, arith, if◌then◌else◌}
use hhctrl_mgmt.Base.Outcome.{done, thrown, M}
use hhctrl_mgmt.Mqtt.Error.{map_error_code, AreUnmapped}
use hhctrl_mgmt.Mqtt.Packet.{Packet, connack, packet, failed}
use hhctrl_mgmt.Mqtt.Client.{Endpoint, Client, con_packet, async_connect}

abbrev pub is_connack : Packet → Bool
is_connack (connack code) = true
is_connack _ = false

module _ (E : Endpoint) (c : Client (E.Net)) (n₁ n₂ n₃ n₄ : E.Net)
    (reconnect : M (Client (E.Net)) Bool)
    (resolved : E.resolve c.config.host c.config.port c.net ≡ (none, n₁))
    (established : E.connect n₁ ≡ (none, n₂))
    (sent : E.send (con_packet c.config c.will) n₂ ≡ (none, n₃)) where
  -- Once the broker's name is resolved, the socket connected and the connect packet sent, any
  -- packet at all makes `async_connect` report success and reset the attempts. The client counts
  -- as connected then if the packet is a `connack`, whatever its return code; with any other
  -- packet it stays as it was.
  pub async_connect_packet :
      (p : Packet)
      → E.recv n₃ ≡ (packet p, n₄)
      → async_connect E reconnect c
        ≡ done (
          none,
          record c {
            connected = if is_connack p then true else c.connected;
            attempt = 0;
            net = n₄;
          },
        )
  unfolding async_connect
  async_connect_packet p received = ground arith

  -- Where what boost::system makes of the program's own codes is none of the values that are mapped: an
  -- error of any value in place of the packet, when the client is not connected, makes
  -- `async_connect` throw, where it is meant to return the error. Its code is mapped twice, and the
  -- second time it is the program's own.
  pub async_connect_recv_error :
      (n : ℕ)
      → AreUnmapped E.wrapped
      → c.connected ≡ false
      → E.recv n₃ ≡ (failed n, n₄)
      → async_connect E reconnect c ≡ thrown
  unfolding async_connect map_error_code
  async_connect_recv_error n u fresh received = ground (arith, u 1, u 2, u 3)
