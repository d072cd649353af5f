-- ===== src/Mqtt/Client/Calls.antt =====
-- What a connected client hands on from the endpoint.
use hhctrl_mgmt.Base.{
  ℕ, zero, suc, ◌<◌, ◌≡◌, Bool, true, Option, none, some, List, [], ◌∷◌, arith, All, length,
}
use hhctrl_mgmt.Base.Outcome.{done, M}
use hhctrl_mgmt.Mqtt.Error.{value}
use hhctrl_mgmt.Mqtt.Packet.{
  Packet, connack, publish, puback, suback, other, packet, Result, publish_result, puback_result,
  suback_result,
}
use hhctrl_mgmt.Mqtt.Client.{Endpoint, Client, receive_loop, async_receive, try_reconnect}

-- The packets that `async_receive` hands on.
abbrev pub result_of : Packet → Option Result
result_of (publish m) = some (publish_result m)
result_of (puback id) = some (puback_result id)
result_of (suback codes) = some (suback_result codes)
result_of (connack code) = none
result_of other = none

module _ (E : Endpoint) where
  -- The endpoint gives these packets, one after another, between two of its states.
  abbrev pub Delivers : List Packet → E.Net → E.Net → Type 0
  Delivers [] net net' = net ≡ net'
  Delivers (p ∷ ps) net net' = ((E.recv net).0 ≡ packet p) × Delivers ps (E.recv net).1 net'

  receive_skips :
      (skipped : List Packet) (p : Packet) (r : Result) (rounds : ℕ)
      (reconnect : M (Client E.Net) Bool) (c : Client E.Net) (before behind : E.Net)
      → All (λ q. result_of q ≡ none) skipped
      → result_of p ≡ some r
      → Delivers skipped c.net before
      → E.recv before ≡ (packet p, behind)
      → length skipped < rounds
      → receive_loop E rounds reconnect c ≡ done (value r, record c { net = behind })
  unfolding receive_loop
  receive_skips skipped p r zero reconnect c before behind s e d g h = absurd (omega arith)
  receive_skips [] p r (suc rounds) reconnect c before behind s e d g h = ground arith
  receive_skips (q ∷ qs) p r (suc rounds) reconnect c before behind s e d g h = ground (
    arith,
    receive_skips qs p r rounds reconnect (record c { net = (E.recv c.net).1 }) before behind s.1 e
        d.1 g (omega arith),
    s.0,
    d.0,
  )

  -- A connected client hands on the first publish, puback or suback packet that the endpoint
  -- gives, after any number of other packets, which are dropped; one round more than there are of
  -- those is enough. Nothing but the endpoint's state changes.
  pub async_receive_first :
      (skipped : List Packet) (p : Packet) (r : Result) (rounds fuel : ℕ) (c : Client E.Net)
      (before behind : E.Net)
      → c.connected ≡ true
      → All (λ q. result_of q ≡ none) skipped
      → result_of p ≡ some r
      → Delivers skipped c.net before
      → E.recv before ≡ (packet p, behind)
      → length skipped < rounds
      → async_receive E rounds fuel c ≡ done (value r, record c { net = behind })
  unfolding async_receive
  async_receive_first skipped p r rounds fuel c before behind up s e d g h =
      ground
        (arith, receive_skips skipped p r rounds (try_reconnect E fuel) c before behind s e d g h)
